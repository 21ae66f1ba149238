-- ===== src/Linking/Again.antt =====
-- The validators of a blueprint on what they returned themselves (Catalog/Sagas).
use warden_core.Prelude.{String, Bool, not, leb, ◌≡◌, refl, subst, none, some, [], ◌∷◌, arith}
use warden_core.Text.{strip}
use warden_core.Catalog.Checked.{Checked, ok, demand, each, each_some}
use warden_core.Catalog.Parts.{
  exactly_one_of_from_or_value, starts_at_root, non_empty, in_range, is_empty,
}
use warden_core.Catalog.Sagas.{
  spawn, join, step, loop, native, Blueprint, SagaStepRef, jsonpath_must_start_with_dollar,
  valid_spawn, valid_task, valid_native, valid_ref, valid_loop, valid_node, overrides_fit,
  validate_authoring, ensure_unique_ids, validate_spawn_join_wiring, iter_authoring_executable_ids,
  loop_ids, natives,
}
use warden_core.Linking.Binds.{succeeded, on_success, demanded, each-cons, ok-inj}
use warden_core.Linking.Stripped.{strip-strip, non_empty-again}

-- What a check returns, it returns again.
abbrev Settled : {A : Type 0} → (A → Checked A) → Type 0
Settled {A} f = (x y : A) → f x ≡ ok y → f y ≡ ok y

module _ {A : Type 0} (f : A → Checked A) (settled : Settled f) where
  each-Settled : Settled (each f)
  unfolding each
  each-Settled [] ys h = rw (← ok-inj h) refl
  each-Settled (x ∷ xs) zs h =
      let (y, ys, e, es, shape) = each-cons f x xs h in
      rw (shape, settled x y e, each-Settled xs ys es) refl

  each_some-Settled : Settled (each_some f)
  unfolding each_some
  each_some-Settled none o h = rw (← ok-inj h) refl
  each_some-Settled (some x) o h =
      let (y, e, shape) = succeeded (f x) _ h in rw (← ok-inj shape, settled x y e) refl

parameter-Settled : Settled exactly_one_of_from_or_value
unfolding exactly_one_of_from_or_value
parameter-Settled p q h =
    let same : p ≡ q = ground arith in subst (λ x. exactly_one_of_from_or_value x ≡ ok q) same h

path-Settled : Settled jsonpath_must_start_with_dollar
unfolding jsonpath_must_start_with_dollar
path-Settled v u h =
    let (root, h1) = demanded (starts_at_root (strip v)) _ _ h in
    rw (← ok-inj h1, strip-strip v, root) refl

name-Settled : (message : String) → Settled (non_empty message)
name-Settled message v u h = non_empty-again message v h

spawn-Settled : Settled valid_spawn
unfolding valid_spawn
spawn-Settled s t h = on_success (non_empty _ s.saga_name) _ h λ n en h1.
    on_success (non_empty _ s.saga_version) _ h1 λ v ev h2.
      on_success (jsonpath_must_start_with_dollar s.items_from) _ h2 λ i ei h3.
        on_success (non_empty _ s.item_var) _ h3 λ x ex h4.
          on_success (jsonpath_must_start_with_dollar s.result_from) _ h4 λ r er h5.
            on_success (demand (in_range 1 (some 16) s.max_children) _) _ h5 λ _ fits h6.
              on_success (each exactly_one_of_from_or_value s.input) _ h6 λ p ep h7.
                rw
                  (
                    ← ok-inj h7,
                    name-Settled _ s.saga_name n en,
                    name-Settled _ s.saga_version v ev,
                    path-Settled s.items_from i ei,
                    name-Settled _ s.item_var x ex,
                    path-Settled s.result_from r er,
                    fits,
                    each-Settled exactly_one_of_from_or_value parameter-Settled s.input p ep,
                  )
                  refl

task-Settled : Settled valid_task
unfolding valid_task
task-Settled (spawn s) t h =
    on_success (valid_spawn s) _ h λ v e shape. rw (← ok-inj shape, spawn-Settled s v e) refl
task-Settled (join j) t h =
    on_success (non_empty _ j.spawn_step_id) _ h
      λ v e shape. rw (← ok-inj shape, name-Settled _ j.spawn_step_id v e) refl

when-Settled : Settled (each_some (non_empty "when.cel must be non-empty"))
when-Settled = each_some-Settled (non_empty "when.cel must be non-empty") (name-Settled _)

native-Settled : Settled valid_native
unfolding valid_native
native-Settled n m h =
    on_success (each_some (non_empty "when.cel must be non-empty") n.when) _ h λ w ew h1.
      on_success (valid_task n.task) _ h1
        λ t et h2. rw (← ok-inj h2, when-Settled n.when w ew, task-Settled n.task t et) refl

ref-Settled : Settled valid_ref
unfolding valid_ref
ref-Settled r q h = on_success (non_empty _ r.id) _ h λ i ei h1.
    on_success (non_empty _ r.use_name) _ h1 λ u eu h2.
      on_success (non_empty _ r.version) _ h2 λ v ev h3.
        on_success (each exactly_one_of_from_or_value r.with_spec) _ h3 λ p ep h4.
          on_success (each_some (non_empty "when.cel must be non-empty") r.when) _ h4 λ w ew h5.
            on_success (demand (overrides_fit r.overrides) _) _ h5 λ _ fits h6.
              rw
                (
                  ← ok-inj h6,
                  name-Settled _ r.id i ei,
                  name-Settled _ r.use_name u eu,
                  name-Settled _ r.version v ev,
                  each-Settled exactly_one_of_from_or_value parameter-Settled r.with_spec p ep,
                  when-Settled r.when w ew,
                  fits,
                )
                refl

loop-Settled : Settled valid_loop
unfolding valid_loop
loop-Settled l k h = on_success (non_empty _ l.id) _ h λ i ei h1.
    on_success (demand (leb 1 l.max_iterations) _) _ h1 λ _ often h2.
      on_success (non_empty _ l.until) _ h2 λ u eu h3.
        on_success (each valid_ref l.steps) _ h3 λ ss es h4.
          on_success (demand (not (is_empty ss)) _) _ h4 λ _ some_step h5.
            rw
              (
                ← ok-inj h5,
                name-Settled _ l.id i ei,
                often,
                name-Settled _ l.until u eu,
                each-Settled valid_ref ref-Settled l.steps ss es,
                some_step,
              )
              refl

node-Settled : Settled valid_node
unfolding valid_node
node-Settled (step r) n h =
    on_success (valid_ref r) _ h λ v e shape. rw (← ok-inj shape, ref-Settled r v e) refl
node-Settled (loop l) n h =
    on_success (valid_loop l) _ h λ v e shape. rw (← ok-inj shape, loop-Settled l v e) refl
node-Settled (native s) n h =
    on_success (valid_native s) _ h λ v e shape. rw (← ok-inj shape, native-Settled s v e) refl

module _ (compiles : String → Bool) where
  -- A blueprint that the validators of a saga returned passes them again, and they change nothing
  -- in it.
  pub validate_authoring-Settled :
      (b : Blueprint SagaStepRef) (a : Blueprint SagaStepRef)
      → validate_authoring compiles b ≡ ok a
      → validate_authoring compiles a ≡ ok a
  unfolding validate_authoring
  validate_authoring-Settled b a h = on_success (each valid_node b.steps) _ h λ ss es h1.
      on_success (ensure_unique_ids (iter_authoring_executable_ids ss) (loop_ids ss)) _ h1
        λ _ ids h2. on_success (validate_spawn_join_wiring compiles (natives ss)) _ h2 λ _ wired h3.
          rw (← ok-inj h3, each-Settled valid_node node-Settled b.steps ss es, ids, wired) refl
