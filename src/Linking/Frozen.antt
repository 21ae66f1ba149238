-- ===== src/Linking/Frozen.antt =====
-- The ids of the steps that a start freezes into its saga (Catalog/Freeze, engine/saga_hydrate.py).
use warden_core.Prelude.{String, ◌≡◌, refl, ap, true, not, List, [], ◌∷◌, ◌++◌, map}
use mathlib.Core.Path.{ap₂}
use warden_core.Model.{Env, StepSpec, TopStep, single, loop as top_loop}
use warden_core.Catalog.Checked.{Checked, ok, refused, each, all, is_in, distinct}
use warden_core.Catalog.Steps.{StepBlueprint}
use warden_core.Catalog.Sagas.{
  Node, step, loop, native, Blueprint, SagaStepRef, SagaStep, executable_ids, loop_ids, natives,
  iter_executable_step_ids, ensure_unique_ids, validate_spawn_join_wiring, validate_authoring,
  validate_hydrated,
}
use warden_core.Catalog.Hydrate.{hydrate_authoring_node, hydrate_authoring_blueprint}
use warden_core.Catalog.Tables.{Row, load_catalog_for_authoring, loaded_step, link}
use warden_core.Catalog.Freeze.{
  Disk, FrozenStep, as_value_error, embed_resolved_assets, worker_step_fields, native_step_fields,
  frozen_spec, freeze_node, hydrate_to_frozen_steps,
}
use warden_core.Linking.Binds.{
  Ensures, Ensures-ok, Ensures-refused, Ensures-bind, on_success, demanded, demanded-last,
  each-cons, each-map, ok-inj,
}

-- The ids of the forward rows, and of the loops, that frozen steps stand for.
pub row_ids : List TopStep → List String
row_ids [] = []
row_ids (single s ∷ rest) = s.step_id ∷ row_ids rest
row_ids (top_loop l ∷ rest) = map (λ s. s.step_id) l.body ++ row_ids rest

pub frozen_loop_ids : List TopStep → List String
frozen_loop_ids [] = []
frozen_loop_ids (single s ∷ rest) = frozen_loop_ids rest
frozen_loop_ids (top_loop l ∷ rest) = l.loop_id ∷ frozen_loop_ids rest

Ensures-as_value_error :
    {A : Type 0} {P : A → Type 0} (m : Checked A) → Ensures P m → Ensures P (as_value_error m)
Ensures-as_value_error (ok a) h = h
Ensures-as_value_error (refused e) h = Ensures-refused _

abbrev Freezes : SagaStep → FrozenStep → Type 0
Freezes s f = f.step ≡ s

abbrev Names : SagaStep → StepSpec → Type 0
Names s spec = spec.step_id ≡ s.id

-- The steps have ids of their own, the loops have, and no loop has the id of a step.
pub record UniqueIds (steps loops : List String) : Type 0 where
  pub steps_differ : distinct steps ≡ true
  pub loops_differ : distinct loops ≡ true
  pub apart : all (λ l. not (is_in steps l)) loops ≡ true

ensured-UniqueIds :
    (steps loops : List String) → ensure_unique_ids steps loops ≡ ok tt → UniqueIds steps loops
unfolding ensure_unique_ids
ensured-UniqueIds steps loops h =
    let (a, h1) = demanded (distinct steps) _ _ h in
    let (b, h2) = demanded (distinct loops) _ _ h1 in
    record { steps_differ = a; loops_differ = b; apart = demanded-last _ _ h2 }

module _ (disk : Disk) where
  frozen-step : (s : SagaStep) → Ensures (Freezes s) (embed_resolved_assets disk s)
  unfolding embed_resolved_assets
  frozen-step s = Ensures-as_value_error _ (search (Ensures-bind, Ensures-ok) depth 12)

  frozen-id : (s : SagaStep) (spec : StepSpec) → frozen_spec disk s ≡ ok spec → Names s spec
  unfolding frozen_spec worker_step_fields
  frozen-id s spec h =
      on_success (embed_resolved_assets disk s) _ h
        λ f found shape. rw (← ok-inj shape) (ap (λ x. x.id) ((frozen-step s).holds f found))

  record Shaped (ns : List (Node SagaStep)) (ss : List TopStep) : Type 0 where
    ids : row_ids ss ≡ iter_executable_step_ids ns
    loops : frozen_loop_ids ss ≡ loop_ids ns

  node-Shaped :
      (n : Node SagaStep) (t : TopStep) {ns : List (Node SagaStep)} {ss : List TopStep}
      → freeze_node disk n ≡ ok t
      → Shaped ns ss
      → Shaped (n ∷ ns) (t ∷ ss)
  unfolding freeze_node iter_executable_step_ids executable_ids loop_ids row_ids frozen_loop_ids
      native_step_fields
  node-Shaped (step s) t e w = on_success (frozen_spec disk s) _ e λ spec found shape.
      rw (← ok-inj shape)
        (record { ids = ap₂ (λ x y. x ∷ y) (frozen-id s spec found) w.ids; loops = w.loops })
  node-Shaped (loop l) t e w = on_success (each (frozen_spec disk) l.steps) _ e λ body found shape.
      rw (← ok-inj shape) (record {
        ids =
            ap₂ (λ x y. x ++ y)
              (each-map (frozen_spec disk) (λ s. s.id) (λ s. s.step_id) frozen-id l.steps found)
              w.ids;
        loops = ap (λ y. l.id ∷ y) w.loops;
      })
  node-Shaped (native n) t e w =
      rw (← ok-inj e) (record { ids = ap (λ y. n.id ∷ y) w.ids; loops = w.loops })

  nodes-Shaped :
      (ns : List (Node SagaStep)) {ss : List TopStep}
      → each (freeze_node disk) ns ≡ ok ss
      → Shaped ns ss
  unfolding each iter_executable_step_ids executable_ids loop_ids row_ids frozen_loop_ids
  nodes-Shaped [] e = rw (← ok-inj e) (record { ids = refl; loops = refl })
  nodes-Shaped (n ∷ ns) e =
      let (t, ss, found, rest, shape) = each-cons (freeze_node disk) n ns e in
      rw shape (node-Shaped n t found (nodes-Shaped ns rest))

  module _ (env : Env) where
    linked-UniqueIds :
        (rows : List (Row StepBlueprint)) (namespace : String) (a : Blueprint SagaStepRef)
        {h : Blueprint SagaStep}
        → link env disk.jsonpath_compiles rows namespace a ≡ ok h
        → UniqueIds (iter_executable_step_ids h.steps) (loop_ids h.steps)
    unfolding link hydrate_authoring_blueprint validate_hydrated
    linked-UniqueIds rows namespace a {h} e =
        on_success (load_catalog_for_authoring rows namespace a) _ e λ loaded _ e1.
          on_success (each (hydrate_authoring_node env (loaded_step loaded)) a.steps) _ e1
            λ steps _ e2.
              on_success (ensure_unique_ids (iter_executable_step_ids steps) (loop_ids steps)) _ e2
                λ _ unique e3.
                  on_success (validate_spawn_join_wiring disk.jsonpath_compiles (natives steps)) _
                    e3 λ _ _ e4. rw (← ok-inj e4) (ensured-UniqueIds _ _ unique)

    -- The steps that a start freezes have ids of their own: no two forward rows of one round, no
    -- two loops, and no loop and row share an id.
    pub hydrate_to_frozen_steps-UniqueIds :
        (rows : List (Row StepBlueprint)) (d : Row (Blueprint SagaStepRef)) {ss : List TopStep}
        → hydrate_to_frozen_steps disk env rows d ≡ ok ss
        → UniqueIds (row_ids ss) (frozen_loop_ids ss)
    unfolding hydrate_to_frozen_steps
    hydrate_to_frozen_steps-UniqueIds rows d {ss} e =
        on_success
          (validate_authoring disk.jsonpath_compiles (record d.body { namespace = d.namespace })) _
          e
          λ a _ e1.
            on_success (link env disk.jsonpath_compiles rows d.namespace a) _ e1 λ h linked frozen.
              let w = nodes-Shaped h.steps frozen in
              rw (w.ids, w.loops) (linked-UniqueIds rows d.namespace a linked)
