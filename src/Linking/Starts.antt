-- ===== src/Linking/Starts.antt =====
-- From the registration of a saga to its start (Catalog/Registry, Catalog/Freeze).
use warden_core.Prelude.{
  subst, ◌≡◌, refl, sym, ◌∙◌, true, false, some, List, exists, find_first, inl, inr, Bool-cases,
  Option-cases, eq_refl,
}
use warden_core.Prelude.Search.{
  find_first-last, find_first-update_where, find_first-none, find_first-passes,
}
use mathlib.Core.Bool.{true≢false}
use warden_core.Model.{Env}
use warden_core.Catalog.Checked.{ok, each, all}
use warden_core.Catalog.Sagas.{Blueprint, SagaStepRef, SagaStep, validate_authoring}
use warden_core.Catalog.Tables.{
  Row, Catalog, has_identity, find_row, collect_authoring_step_refs, link,
}
use warden_core.Catalog.Freeze.{Disk, freeze_node, hydrate_to_frozen_steps}
use warden_core.Catalog.Registry.{
  saga_row, saga_manifest, check_manifest, collect_saga_registration_workers,
  assert_dependencies_registered, upsert_saga_definition, new_row,
}
use warden_core.Linking.Binds.{on_success}
use warden_core.Linking.Again.{validate_authoring-Settled}
use warden_core.Linking.Immutable.{Changes, Changes-Immutable}
use warden_core.Linking.Stable.{is_active_at, link-again}

module _ (env : Env) (disk : Disk) where
  -- What the checks of a saga's registration found of the blueprint that it stores.
  record Linked (seen : Catalog) (stored : Blueprint SagaStepRef) : Type 0 where
    is_valid : validate_authoring disk.jsonpath_compiles stored ≡ ok stored
    hydrated : Blueprint SagaStep
    is_linked : link env disk.jsonpath_compiles seen.steps stored.namespace stored ≡ ok hydrated

  saga_row-inj : {a b : Blueprint SagaStepRef} → ok (saga_row a) ≡ ok (saga_row b) → a ≡ b
  saga_row-inj h = cc

  checked_saga :
      (seen : Catalog) (b : Blueprint SagaStepRef) {stored : Blueprint SagaStepRef}
      → check_manifest env disk seen (saga_manifest b) ≡ ok (saga_row stored)
      → Linked seen stored
  unfolding check_manifest
  checked_saga seen b {stored} h =
      on_success (validate_authoring disk.jsonpath_compiles b) _ h λ a ea h1.
        on_success (link env disk.jsonpath_compiles seen.steps a.namespace a) _ h1 λ s es h2.
          on_success (collect_saga_registration_workers disk s.steps) _ h2 λ ws ews h3.
            on_success (assert_dependencies_registered seen ws s) _ h3 λ _ eds h4.
              subst (Linked seen) (saga_row-inj h4) (record {
                is_valid = validate_authoring-Settled disk.jsonpath_compiles b a ea;
                hydrated = s;
                is_linked = es;
              })

  -- The steps that a start freezes for a saga whose registration passed its checks are, after any
  -- further registrations and switches, those that it was linked to then, if the step versions that
  -- it refers to are active: hydrating the stored definition comes down to reading the assets of
  -- these steps from disk. Whether the definition itself is still active is not part of the
  -- hydration.
  pub check_manifest-hydrates :
      (seen c : Catalog) (b a : Blueprint SagaStepRef)
      → check_manifest env disk seen (saga_manifest b) ≡ ok (saga_row a)
      → Changes env disk seen c
      → (d : Row (Blueprint SagaStepRef)) → d.namespace ≡ a.namespace
      → d.body ≡ a
      → all (is_active_at a.namespace c.steps) (collect_authoring_step_refs a) ≡ true
      → (h : Blueprint SagaStep) × (link env disk.jsonpath_compiles seen.steps a.namespace a ≡ ok h)
        × (hydrate_to_frozen_steps disk env c.steps d ≡ each (freeze_node disk) h.steps)
  unfolding hydrate_to_frozen_steps
  check_manifest-hydrates seen c b a checked changes d same stored live =
      let l = checked_saga seen b checked in
      (
        l.hydrated,
        l.is_linked,
        rw
            (
              stored,
              same,
              l.is_valid,
              link-again env disk.jsonpath_compiles a.namespace seen.steps c.steps a
                  (Changes-Immutable changes).steps l.is_linked live,
            )
            refl,
      )

-- The saga definition that is found under a blueprint's identity after it was stored has the
-- blueprint as its body, whether a row was there or not.
pub upsert_saga_definition-found :
    (b : Blueprint SagaStepRef) (rows : List (Row (Blueprint SagaStepRef)))
    → (r : Row (Blueprint SagaStepRef)) × (find_row b.namespace b.name b.version
          (upsert_saga_definition b rows)
        ≡ some r)
      × (r.body ≡ b)
unfolding upsert_saga_definition
upsert_saga_definition-found b rows =
    let p = has_identity b.namespace b.name b.version in
    elim (Bool-cases (exists p rows)) [
      | inl there ↦ elim (Option-cases (find_first p rows)) [
        | inl gone ↦
            let no : exists p rows ≡ false = find_first-none p rows gone in
            absurd (true≢false (sym there ∙ no))
        | inr (r, found) ↦ (
          record r { body = b },
          rw there (
              find_first-update_where p p (λ x. record x { body = b }) (λ x. refl) rows found
              ∙ rw (find_first-passes p rows found) refl),
          refl,
        )
      ]
      | inr free ↦ (
        new_row b.namespace b.name b.version b,
        rw free
            (find_first-last p (new_row b.namespace b.name b.version b) rows (simp eq_refl) free),
        refl,
      )
    ]
