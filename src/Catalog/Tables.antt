-- ===== src/Catalog/Tables.antt =====
-- The catalog's tables (WorkerDefinition, StepDefinition and SagaDefinition of common/models.py), and
-- engine/saga_hydrate.py as far as it reads them: the catalog steps of a blueprint.
use warden_core.Prelude.{
  String, Bool, ◌&&◌, Option, none, some, List, [], ◌∷◌, ◌++◌, ◌==◌, exists, find_first,
  if◌then◌else◌,
}
use warden_core.Model.{Env}
use warden_core.Catalog.Checked.{
  Pin, Failure, not_found, inactive, key_error, Checked, ok, refused, ◌>>=◌,
}
use warden_core.Catalog.Workers.{WorkerBlueprint}
use warden_core.Catalog.Steps.{StepBlueprint, parse_step_blueprint}
use warden_core.Catalog.Sagas.{Node, step, loop, native, Blueprint, SagaStepRef, SagaStep}
use warden_core.Catalog.Hydrate.{hydrate_authoring_blueprint}

-- A row of one of the three tables: unique by namespace, name and version.
pub record Row (A : Type 0) : Type 0 where
  pub namespace : String
  pub name : String
  pub version : String
  pub is_active : Bool
  pub body : A

pub record Catalog : Type 0 where
  pub workers : List (Row WorkerBlueprint)
  pub steps : List (Row StepBlueprint)
  pub sagas : List (Row (Blueprint SagaStepRef))

module _ {A : Type 0} where
  abbrev pub has_identity : String → String → String → Row A → Bool
  has_identity namespace name version r =
      r.namespace == namespace && r.name == name && r.version == version

  abbrev pub find_row : String → String → String → List (Row A) → Option (Row A)
  find_row namespace name version = find_first (has_identity namespace name version)

abbrev pub same_pin : Pin → Pin → Bool
same_pin p q = q.name == p.name && q.version == p.version

abbrev pub pin_of : SagaStepRef → Pin
pin_of r = record { name = r.use_name; version = r.version }

-- collect_authoring_step_refs: `seen` are the references so far, in their order
unfoldable pub add_refs : List Pin → List SagaStepRef → List Pin
add_refs seen [] = seen
add_refs seen (r ∷ rs) =
    add_refs (if exists (same_pin (pin_of r)) seen then seen else seen ++ pin_of r ∷ []) rs

abbrev pub refs_of : Node SagaStepRef → List SagaStepRef
refs_of (step r) = r ∷ []
refs_of (loop l) = l.steps
refs_of (native n) = []

unfoldable pub collect_refs : List Pin → List (Node SagaStepRef) → List Pin
unfolding add_refs
collect_refs seen [] = seen
collect_refs seen (n ∷ ns) = collect_refs (add_refs seen (refs_of n)) ns

unfoldable pub collect_authoring_step_refs : Blueprint SagaStepRef → List Pin
unfolding collect_refs
collect_authoring_step_refs b = collect_refs [] b.steps

abbrev pub lacks : String → Pin → Failure
lacks kind p = not_found kind (p ∷ [])

-- load_step_blueprint
unfoldable pub load_step_blueprint : List (Row StepBlueprint) → String → Pin → Checked StepBlueprint
load_step_blueprint rows namespace p = elim (find_row namespace p.name p.version rows) [
  | none ↦ refused (lacks "step" p)
  | some row ↦
      if row.is_active then parse_step_blueprint row.body else refused (inactive "step" (p ∷ []))
]

-- What the loop of load_catalog_for_authoring has gathered.
pub record Loaded : Type 0 where
  pub pin : Pin
  pub blueprint : StepBlueprint

pub record Gathered : Type 0 where
  pub loaded : List Loaded
  pub missing : List Pin
  pub disabled : List Pin

abbrev pub gather : Pin → Checked StepBlueprint → Gathered → Checked Gathered
gather p (ok b) g = ok (record g { loaded = record { pin = p; blueprint = b } ∷ g.loaded })
gather p (refused (not_found kind ps)) g = ok (record g { missing = p ∷ g.missing })
gather p (refused (inactive kind ps)) g = ok (record g { disabled = p ∷ g.disabled })
gather p (refused other) g = refused other

-- The loop of load_catalog_for_authoring over the references; what it found last stands first.
unfoldable pub gather_all : (Pin → Checked StepBlueprint) → List Pin → Gathered → Checked Gathered
gather_all load [] g = ok g
gather_all load (p ∷ ps) g = do next ← gather p (load p) g; gather_all load ps next

abbrev pub nothing : Gathered
nothing = record { loaded = []; missing = []; disabled = [] }

abbrev pub settle : Gathered → Checked (List Loaded)
settle g = elim g.missing [
  | p ∷ ps ↦ refused (not_found "step" (p ∷ ps))
  | [] ↦ elim g.disabled [ p ∷ ps ↦ refused (inactive "step" (p ∷ ps)) | [] ↦ ok g.loaded ]
]

-- load_catalog_for_authoring
unfoldable pub load_catalog_for_authoring :
    List (Row StepBlueprint) → String → Blueprint SagaStepRef → Checked (List Loaded)
unfolding collect_authoring_step_refs
load_catalog_for_authoring rows namespace b = do
  g ← gather_all (load_step_blueprint rows namespace) (collect_authoring_step_refs b) nothing
  settle g

-- `loaded[(name, version)]`
unfoldable pub loaded_step : List Loaded → String → String → Checked StepBlueprint
loaded_step loaded name version =
    elim (find_first (λ l. same_pin (record { name = name; version = version }) l.pin) loaded) [
      | none ↦ refused key_error
      | some l ↦ ok l.blueprint
    ]

module _ (env : Env) (compiles : String → Bool) where
  -- The link of a validated blueprint to the catalog, at registration and at the start of a saga.
  unfoldable pub link :
      List (Row StepBlueprint) → String → Blueprint SagaStepRef → Checked (Blueprint SagaStep)
  link rows namespace b = do
    loaded ← load_catalog_for_authoring rows namespace b
    hydrate_authoring_blueprint env (loaded_step loaded) compiles b
