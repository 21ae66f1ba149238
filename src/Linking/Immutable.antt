-- ===== src/Linking/Immutable.antt =====
-- The catalog under registrations that interleave, and switches of definitions (Catalog/Registry).
use warden_core.Prelude.{String, ◌≡◌, Bool, List}
use warden_core.Model.{Env}
use warden_core.Catalog.Checked.{Pin, ok}
use warden_core.Catalog.Workers.{WorkerBlueprint}
use warden_core.Catalog.Steps.{StepBlueprint}
use warden_core.Catalog.Sagas.{Blueprint, SagaStepRef}
use warden_core.Catalog.Tables.{Row, Catalog}
use warden_core.Catalog.Freeze.{Disk}
use warden_core.Catalog.Registry.{
  Write, worker_row, step_row, saga_row, apply_write, Manifest, check_manifest, new_row,
  create_definition, set_definition_active,
}
use warden_core.Linking.Binds.{succeeded, ok-inj}
use warden_core.Linking.Rows.{
  Fixed, Fixed-refl, Fixed-trans, create_definition-Fixed, set_definition_active-Fixed,
}

-- One change of the catalog. A registration may have made its checks on any catalog, an old one say,
-- before its transaction writes.
pub data Change (env : Env) (disk : Disk) (c : Catalog) : Catalog → Type 0 where
  register :
      (seen : Catalog) (m : Manifest) {w : Write} {c' : Catalog}
      → check_manifest env disk seen m ≡ ok w
      → apply_write w c ≡ ok c'
      → Change env disk c c'
  switch_worker :
      (namespace : String) (p : Pin) (active : Bool) {ws : List (Row WorkerBlueprint)}
      → ws ≡ set_definition_active namespace p active c.workers
      → Change env disk c (record c { workers = ws })
  switch_step :
      (namespace : String) (p : Pin) (active : Bool) {ss : List (Row StepBlueprint)}
      → ss ≡ set_definition_active namespace p active c.steps
      → Change env disk c (record c { steps = ss })
  switch_saga :
      (namespace : String) (p : Pin) (active : Bool) {gs : List (Row (Blueprint SagaStepRef))}
      → gs ≡ set_definition_active namespace p active c.sagas
      → Change env disk c (record c { sagas = gs })

pub data Changes (env : Env) (disk : Disk) (c : Catalog) : Catalog → Type 0 where
  none : Changes env disk c c
  later : {d e : Catalog} → Changes env disk c d → Change env disk d e → Changes env disk c e

pub record Immutable (c d : Catalog) : Type 0 where
  pub workers : Fixed c.workers d.workers
  pub steps : Fixed c.steps d.steps

apply_write-Immutable :
    (w : Write) (c : Catalog) {d : Catalog} → apply_write w c ≡ ok d → Immutable c d
unfolding apply_write
apply_write-Immutable (worker_row w) c h =
    let (ws, e, done) =
      succeeded (create_definition "worker" (new_row w.namespace w.name w.version w) c.workers) _
        h in
    rw (← ok-inj done)
      (record { workers = create_definition-Fixed _ _ c.workers e; steps = Fixed-refl c.steps })
apply_write-Immutable (step_row b) c h =
    let (ss, e, done) =
      succeeded (create_definition "step" (new_row b.namespace b.name b.version b) c.steps) _ h in
    rw (← ok-inj done)
      (record { workers = Fixed-refl c.workers; steps = create_definition-Fixed _ _ c.steps e })
apply_write-Immutable (saga_row b) c h =
    rw (← ok-inj h) (record { workers = Fixed-refl c.workers; steps = Fixed-refl c.steps })

module _ {env : Env} {disk : Disk} where
  Change-Immutable : {c d : Catalog} → Change env disk c d → Immutable c d
  Change-Immutable {c} (register seen m {w} checked written) = apply_write-Immutable w c written
  Change-Immutable {c} (switch_worker namespace p active e) = record {
    workers = rw e (set_definition_active-Fixed namespace p active c.workers);
    steps = Fixed-refl c.steps;
  }
  Change-Immutable {c} (switch_step namespace p active e) = record {
    workers = Fixed-refl c.workers;
    steps = rw e (set_definition_active-Fixed namespace p active c.steps);
  }
  Change-Immutable {c} (switch_saga namespace p active e) = record {
    workers = Fixed-refl c.workers;
    steps = Fixed-refl c.steps;
  }

  -- Whatever registrations and switches follow, in any order and with checks made on any earlier
  -- catalog: a worker or step that is registered under a namespace, a name and a version is found
  -- there with the same body, and if no two rows of a table shared these, none do afterwards.
  pub Changes-Immutable : {c d : Catalog} → Changes env disk c d → Immutable c d
  Changes-Immutable {c} Changes.none = record {
    workers = Fixed-refl c.workers;
    steps = Fixed-refl c.steps;
  }
  Changes-Immutable (Changes.later before change) =
      let a = Changes-Immutable before in
      let b = Change-Immutable change in
      record { workers = Fixed-trans a.workers b.workers; steps = Fixed-trans a.steps b.steps }
