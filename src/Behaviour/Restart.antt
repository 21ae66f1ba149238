-- ===== src/Behaviour/Restart.antt =====
-- Starts of a saga under a client's key (engine/api/saga_start.py).
use warden_core.Prelude.{
  ℕ, suc, String, ◌≡◌, refl, sym, ◌∙◌, ◌⊎◌, inl, inr, Bool, true, false, ◌&&◌, ◌==◌, eq_refl, ap,
  if◌then◌else◌, none, some, List, [], ◌∷◌, ◌++◌, exists, find_first, is_some, arith, Bool-cases,
  Option-cases,
}
use warden_core.Prelude.Search.{find_first-last, find_first-none}
use warden_core.Json.{Json}
use warden_core.Model.{
  Step, Saga, TopStep, Hydrated, frozen, broken, SagaDefinition, Hook, Message, World, Env,
}
use warden_core.Tx.{
  Tx, Outcome, done, raised, start_conflict, definition_inactive, pure, raise, reads, writes, ◌>>=◌,
  with_some, proceed, settle, in_transaction,
}
use warden_core.Tx.Keeps.{Keeps, IsPreorder, keeps_rules, Keeps-bind}
use warden_core.Store.{saga_of, hook, draw, emit, post, insert_message, create_step}
use warden_core.Engine.Blueprint.{Minted, materialize_executable_steps}
use warden_core.Engine.Start.{
  is_definition, require_saga_definition, has_start_key, resolve_idempotent_start, create_saga,
  create_saga_and_steps, StartSagaResult, start_saga,
}

-- The sagas and the definitions are the same.
record SameStarts (w w' : World) : Type 0 where
  sagas : w'.sagas ≡ w.sagas
  definitions : w'.definitions ≡ w.definitions

SameStarts-order : IsPreorder SameStarts
SameStarts-order = record {
  reflexive = λ w. record { sagas = refl; definitions = refl };
  transitive =
      λ h k. record { sagas = k.sagas ∙ h.sagas; definitions = k.definitions ∙ h.definitions };
}

SameStarts-hook : (h : Hook) → Keeps SameStarts (hook h)
unfolding hook writes
SameStarts-hook h = record { at = λ w. record { sagas = refl; definitions = refl } }

SameStarts-post : (m : Message) → Keeps SameStarts (writes (post m))
unfolding writes
SameStarts-post m = record { at = λ w. record { sagas = refl; definitions = refl } }

SameStarts-draw : (env : Env) → Keeps SameStarts (draw env)
unfolding draw ◌>>=◌ reads writes pure
SameStarts-draw env = record { at = λ w. record { sagas = refl; definitions = refl } }

SameStarts-add :
    (r : Step) → Keeps SameStarts (writes (λ w. record w { steps = w.steps ++ r ∷ [] }))
unfolding writes
SameStarts-add r = record { at = λ w. record { sagas = refl; definitions = refl } }

SameStarts-create : (r : Step) → Keeps SameStarts (create_step r)
unfolding create_step
SameStarts-create r = search (keeps_rules, SameStarts-order, SameStarts-add)

SameStarts-insert : (m : Message) → Keeps SameStarts (insert_message m)
unfolding insert_message
SameStarts-insert m = search (keeps_rules, SameStarts-order, SameStarts-post)

SameStarts-emit : (env : Env) (m : Message) → Keeps SameStarts (emit env m)
unfolding emit
SameStarts-emit env m = search (keeps_rules, SameStarts-order, SameStarts-insert)

SameStarts-materialize :
    (env : Env) (saga : Saga) (ms : List Minted) (seq : ℕ)
    → Keeps SameStarts (materialize_executable_steps env saga ms seq)
unfolding materialize_executable_steps
SameStarts-materialize env saga [] seq = search (keeps_rules, SameStarts-order)
SameStarts-materialize env saga (m ∷ ms) seq =
    Keeps-bind SameStarts-order _ _ (SameStarts-draw env) λ span.
      Keeps-bind SameStarts-order _ _ (SameStarts-create _) λ _.
        Keeps-bind SameStarts-order _ _ (SameStarts-hook _)
          λ _. SameStarts-materialize env saga ms (suc seq)

-- What returns one value only, and leaves the sagas and the definitions alone.
record Ends (t : String) (m : Tx String) : Type 0 where
  keeps : Keeps SameStarts m
  value : (w : World) {r : String} → (m w).0 ≡ done r → r ≡ t

Ends-pure : (t : String) → Ends t (pure t)
unfolding pure
Ends-pure t = record { keeps = search (keeps_rules, SameStarts-order); value = λ w e. cc }

proceed-Ends :
    {A : Type 0} (t : String) (f : A → Tx String)
    → ((a : A) → Ends t (f a))
    → (o : Outcome A) (w : World) {r : String} → (proceed f o w).0 ≡ done r
    → r ≡ t
proceed-Ends t f k (done a) w e = (k a).value w e
proceed-Ends t f k (raised x) w e = absurd (ground arith)

Ends-bind :
    {A : Type 0} (t : String) (m : Tx A) (f : A → Tx String)
    → Keeps SameStarts m
    → ((a : A) → Ends t (f a))
    → Ends t (m >>= f)
unfolding ◌>>=◌
Ends-bind t m f km k = record {
  keeps = Keeps-bind SameStarts-order m f km (λ a. (k a).keeps);
  value = λ w e. proceed-Ends t f k (m w).0 (m w).1 e;
}

abbrev started_by : SagaDefinition → String → Saga → Bool
started_by d key s = has_start_key d.namespace key s && s.definition_id == d.id

abbrev trace_of : Outcome StartSagaResult → String
trace_of (done r) = r.trace_id
trace_of (raised e) = ""

create_then :
    (p : Saga → Bool) (saga : Saga) (t : String) (tail : Tx String)
    → Ends t tail
    → p saga ≡ true
    → (w : World) {r : String} → exists p w.sagas ≡ false
    → ((create_saga saga >>= λ _. tail) w).0 ≡ done r
    → let after = ((create_saga saga >>= λ _. tail) w).1 in
      (r ≡ t) × (find_first p after.sagas ≡ some saga) × (after.definitions ≡ w.definitions)
unfolding create_saga ◌>>=◌ reads writes raise
create_then p saga t tail ends passes w fresh =
    elim (Bool-cases (is_some (saga_of saga.trace_id w))) [
      | inl taken ↦ rw taken (λ e. absurd (ground arith))
      | inr free ↦ rw free (λ e.
          let same = ends.keeps.at (record w { sagas = w.sagas ++ saga ∷ [] }) in
          (
            ends.value _ e,
            rw same.sagas (find_first-last p saga w.sagas passes fresh),
            same.definitions,
          ))
    ]

traced : {a b : StartSagaResult} → done a ≡ done b → a.trace_id ≡ b.trace_id
traced h = ap trace_of h

Hydrated-cases :
    (h : Hydrated) → ((steps : List TopStep) × (h ≡ frozen steps)) ⊎ ((m : String) × (h ≡ broken m))
Hydrated-cases (frozen steps) = inl (steps, refl)
Hydrated-cases (broken m) = inr (m, refl)

module _ (env : Env) (d : SagaDefinition) (key : String) where
  record Started (t : String) (w : World) : Type 0 where
    saga : Saga
    found : find_first (started_by d key) w.sagas ≡ some saga
    named : saga.trace_id ≡ t

  created :
      (input : Json) (w : World) {t : String}
      → exists (started_by d key) w.sagas ≡ false
      → (create_saga_and_steps env d input (some key) none w).0 ≡ done t
      → let after = (create_saga_and_steps env d input (some key) none w).1 in
        Started t after × (after.definitions ≡ w.definitions)
  unfolding create_saga_and_steps draw ◌>>=◌ reads writes pure raise
  created input w {t} fresh = elim (Hydrated-cases d.hydrated) [
    | inr (m, h) ↦ rw h (λ e. absurd (ground arith))
    | inl (steps, h) ↦ rw h (λ e.
        let (same, found, kept) =
          create_then (started_by d key) _ _ _
            (search (Ends-bind, Ends-pure, SameStarts-hook, SameStarts-materialize, SameStarts-emit)
              depth 12)
            (rw (eq_refl d.namespace, eq_refl key, eq_refl d.id) refl) _ fresh e in
        (record { saga = _; found = found; named = sym same }, kept))
  ]

  require-found :
      (namespace name version : String) (w : World)
      → find_first (is_definition namespace name version) w.definitions ≡ some d
      → d.is_active ≡ true
      → require_saga_definition namespace name version w ≡ (done d, w)
  unfolding require_saga_definition ◌>>=◌ reads pure with_some
  require-found namespace name version w there active =
      rw there (ap (λ b. (if b then pure d else raise definition_inactive) w) active)

  restarts :
      (namespace name version t : String) (input : Json) (w : World)
      → find_first (is_definition namespace name version) w.definitions ≡ some d
      → d.is_active ≡ true
      → Started t w
      → start_saga env namespace name version input (some key) w
        ≡ (done (record { trace_id = t; created = false }), w)
  unfolding start_saga require_saga_definition resolve_idempotent_start ◌>>=◌ reads pure with_some
  restarts namespace name version t input w there active h =
      rw (there, active, h.found, h.named) refl

  -- The answers of _resolve_idempotent_start where no saga of the definition has the key.
  unresolved :
      (w : World)
      → find_first (started_by d key) w.sagas ≡ none
      → (resolve_idempotent_start d.namespace d.id key w ≡ (done none, w))
        ⊎ (resolve_idempotent_start d.namespace d.id key w ≡ (raised start_conflict, w))
  unfolding resolve_idempotent_start ◌>>=◌ reads pure with_some raise
  unresolved w fresh = elim (Option-cases (find_first (has_start_key d.namespace key) w.sagas)) [
    | inl gone ↦ inl (rw (fresh, gone) refl)
    | inr (s, other) ↦ elim (Bool-cases (s.definition_id == d.id)) [
      | inl t ↦ inl (rw (fresh, other, t) refl)
      | inr f ↦ inr (rw (fresh, other, f) refl)
    ]
  ]

  settled-Started :
      (w : World) (o : Outcome String) (w' : World) {r : StartSagaResult}
      → ((t : String) → o ≡ done t → Started t w' × (w'.definitions ≡ w.definitions))
      → let body =
          proceed {B = StartSagaResult}
            (λ t. pure (record { trace_id = t; created = true }))
            o
            w' in
        (settle w body.0 body.1).0 ≡ done r
        → Started r.trace_id (settle w body.0 body.1).1
          × ((settle w body.0 body.1).1.definitions ≡ w.definitions)
  unfolding pure
  settled-Started w (done t) w' h e =
      let (started, kept) = h t refl in
      (
        record { saga = started.saga; found = started.found; named = started.named ∙ traced e },
        kept,
      )
  settled-Started w (raised x) w' h e = absurd (ground arith)

  -- With no saga under the key, a start comes down to its transaction.
  opens :
      (namespace name version : String) (input : Json) (w : World)
      → find_first (is_definition namespace name version) w.definitions ≡ some d
      → d.is_active ≡ true
      → resolve_idempotent_start d.namespace d.id key w ≡ (done none, w)
      → start_saga env namespace name version input (some key) w
        ≡ in_transaction
            (create_saga_and_steps env d input (some key) none >>= λ t.
              pure (record { trace_id = t; created = true }))
            w
  unfolding start_saga ◌>>=◌ with_some in_transaction
  opens namespace name version input w there active none_yet =
      let required = require-found namespace name version w there active in
      rw (required, none_yet, required, none_yet) refl

  starts :
      (namespace name version : String) (input : Json) (w : World) {r : StartSagaResult}
      → find_first (is_definition namespace name version) w.definitions ≡ some d
      → d.is_active ≡ true
      → (start_saga env namespace name version input (some key) w).0 ≡ done r
      → let after = (start_saga env namespace name version input (some key) w).1 in
        Started r.trace_id after × (after.definitions ≡ w.definitions)
  unfolding start_saga require_saga_definition ◌>>=◌ reads pure with_some in_transaction
  starts namespace name version input w there active =
      elim (Option-cases (find_first (started_by d key) w.sagas)) [
        | inr (s, found) ↦
            let here : Started s.trace_id w = record { saga = s; found = found; named = refl } in
            rw (restarts namespace name version s.trace_id input w there active here)
              (λ e. (record { saga = s; found = found; named = traced e }, refl))
        | inl fresh ↦ elim (unresolved w fresh) [
          | inr conflict ↦ rw (there, active, conflict) (λ e. absurd (ground arith))
          | inl none_yet ↦ rw (opens namespace name version input w there active none_yet) (
              settled-Started w (create_saga_and_steps env d input (some key) none w).0
                (create_saga_and_steps env d input (some key) none w).1
                (λ t. created input w {t = t} (find_first-none (started_by d key) w.sagas fresh)))
        ]
      ]

-- Right after a start under a client's key that returned, a further start of the same definition under
-- the key, whatever its input is, returns the same saga as not created, and changes nothing.
pub start_saga-again :
    (env : Env) (namespace name version key : String) (input input' : Json) (w : World)
    (r : StartSagaResult)
    → (start_saga env namespace name version input (some key) w).0 ≡ done r
    → let after = (start_saga env namespace name version input (some key) w).1 in
      start_saga env namespace name version input' (some key) after
      ≡ (done (record { trace_id = r.trace_id; created = false }), after)
unfolding require_saga_definition start_saga ◌>>=◌ reads pure with_some raise
start_saga-again env namespace name version key input input' w r =
    elim (Option-cases (find_first (is_definition namespace name version) w.definitions)) [
      | inl unknown ↦ rw unknown (λ e. absurd (ground arith))
      | inr (d, there) ↦ elim (Bool-cases d.is_active) [
        | inr off ↦ rw (there, off) (λ e. absurd (ground arith))
        | inl active ↦ λ e.
            let (started, kept) = starts env d key namespace name version input w there active e in
            restarts env d key namespace name version r.trace_id input' _ (rw kept there) active
              started
      ]
    ]
