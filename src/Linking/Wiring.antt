-- ===== src/Linking/Wiring.antt =====
-- Ids and engine-native steps in the link of a blueprint to the catalog (Catalog/Hydrate).
use warden_core.Prelude.{String, ◌≡◌, refl, ap, Bool, List, [], ◌∷◌, ◌++◌, map}
use mathlib.Core.Path.{ap₂}
use warden_core.Model.{Env}
use warden_core.Catalog.Checked.{Checked, ok, each}
use warden_core.Catalog.Steps.{StepBlueprint}
use warden_core.Catalog.Sagas.{
  Node, step, loop, native, valid_node, Blueprint, SagaStepRef, SagaStep, executable_ids, loop_ids,
  natives, iter_authoring_executable_ids, iter_executable_step_ids, ensure_unique_ids,
  validate_spawn_join_wiring, validate_authoring, validate_hydrated,
}
use warden_core.Catalog.Hydrate.{
  validate_saga_step, hydrate_step_ref, resolved_step, hydrate_authoring_node,
  hydrate_authoring_blueprint,
}
use warden_core.Linking.Binds.{
  Ensures, Ensures-ok, Ensures-bind, succeeded, each-cons, each-map, ok-inj,
}

abbrev HasId : String → SagaStep → Type 0
HasId id s = s.id ≡ id

validated-id : (id : String) (s : SagaStep) → s.id ≡ id → Ensures (HasId id) (validate_saga_step s)
unfolding validate_saga_step
validated-id id s h = search (Ensures-bind, Ensures-ok) depth 12

module _ (env : Env) (resolve : String → String → Checked StepBlueprint) where
  resolved-id : (r : SagaStepRef) → Ensures (HasId r.id) (resolved_step env resolve r)
  unfolding resolved_step hydrate_step_ref
  resolved-id r = search (Ensures-bind, validated-id) depth 12

  -- The ids and the engine-native steps of hydrated nodes are those of the references.
  pub record Wired (ns : List (Node SagaStepRef)) (hs : List (Node SagaStep)) : Type 0 where
    pub ids : iter_executable_step_ids hs ≡ iter_authoring_executable_ids ns
    pub loops : loop_ids hs ≡ loop_ids ns
    pub engine : natives hs ≡ natives ns

  node-Wired :
      (n : Node SagaStepRef) (h : Node SagaStep) {ns : List (Node SagaStepRef)}
      {hs : List (Node SagaStep)}
      → hydrate_authoring_node env resolve n ≡ ok h
      → Wired ns hs
      → Wired (n ∷ ns) (h ∷ hs)
  unfolding hydrate_authoring_node iter_executable_step_ids iter_authoring_executable_ids
      executable_ids loop_ids natives
  node-Wired (step r) h e w =
      let (s, found, shape) = succeeded (resolved_step env resolve r) _ e in
      rw (← ok-inj shape) (record {
        ids = ap₂ (λ x y. x ∷ y) ((resolved-id r).holds s found) w.ids;
        loops = w.loops;
        engine = w.engine;
      })
  node-Wired (loop l) h e w =
      let (body, found, shape) = succeeded (each (resolved_step env resolve) l.steps) _ e in
      let same : map (λ s. s.id) body ≡ map (λ r. r.id) l.steps =
        each-map (resolved_step env resolve) (λ r. r.id) (λ s. s.id) (λ r. (resolved-id r).holds)
          l.steps found in
      rw (← ok-inj shape) (record {
        ids = ap₂ (λ x y. x ++ y) same w.ids;
        loops = ap (λ x. l.id ∷ x) w.loops;
        engine = w.engine;
      })
  node-Wired (native n) h e w = rw (← ok-inj e) (record {
    ids = ap (λ x. n.id ∷ x) w.ids;
    loops = w.loops;
    engine = ap (λ x. n ∷ x) w.engine;
  })

  nodes-Wired :
      (ns : List (Node SagaStepRef)) {hs : List (Node SagaStep)}
      → each (hydrate_authoring_node env resolve) ns ≡ ok hs
      → Wired ns hs
  unfolding each iter_executable_step_ids iter_authoring_executable_ids executable_ids loop_ids
      natives
  nodes-Wired [] e = rw (← ok-inj e) (record { ids = refl; loops = refl; engine = refl })
  nodes-Wired (n ∷ ns) e =
      let (h, hs, found, rest, shape) = each-cons (hydrate_authoring_node env resolve) n ns e in
      rw shape (node-Wired n h found (nodes-Wired ns rest))

  module _ (compiles : String → Bool) where
    validated_ids :
        (b : Blueprint SagaStepRef) {a : Blueprint SagaStepRef}
        → validate_authoring compiles b ≡ ok a
        → (ensure_unique_ids (iter_authoring_executable_ids a.steps) (loop_ids a.steps) ≡ ok tt)
          × (validate_spawn_join_wiring compiles (natives a.steps) ≡ ok tt)
    unfolding validate_authoring
    validated_ids b {a} h =
        let (steps, es, h1) = succeeded (each valid_node b.steps) _ h in
        let (u, eu, h2) =
          succeeded (ensure_unique_ids (iter_authoring_executable_ids steps) (loop_ids steps)) _
            h1 in
        let (v, ev, h3) = succeeded (validate_spawn_join_wiring compiles (natives steps)) _ h2 in
        rw (← ok-inj h3) (eu, ev)

    -- For a blueprint that passed its validators, hydration can fail at a step only: where every
    -- reference resolves to a step, the hydrated blueprint passes its validators too, with the same
    -- step ids, loop ids, and spawn and join steps, in the same order.
    pub hydrate_authoring_blueprint-Wired :
        (b : Blueprint SagaStepRef) {a : Blueprint SagaStepRef} {hs : List (Node SagaStep)}
        → validate_authoring compiles b ≡ ok a
        → each (hydrate_authoring_node env resolve) a.steps ≡ ok hs
        → (hydrate_authoring_blueprint env resolve compiles a
            ≡ ok (record {
              name = a.name;
              namespace = a.namespace;
              version = a.version;
              description = a.description;
              steps = hs;
            }))
          × Wired a.steps hs
    unfolding hydrate_authoring_blueprint validate_hydrated
    hydrate_authoring_blueprint-Wired b {a} {hs} v e =
        let w = nodes-Wired a.steps e in
        let (ids, wiring) = validated_ids b v in
        (rw (e, w.ids, w.loops, ids, w.engine, wiring) refl, w)
