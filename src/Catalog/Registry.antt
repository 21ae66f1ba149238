-- ===== src/Catalog/Registry.antt =====
-- engine/registry/service.py: registration of workers, steps and sagas, and the switch of a definition
-- in engine/api/routes/definitions.py. A registration reads the tables twice: the checks run on the
-- catalog that they find, and the write on the one of its transaction, which may be a later one. The
-- hook of a plugin and the log lines are left out.
use warden_core.Prelude.{
  String, Bool, true, false, not, ◌&&◌, Option, none, some, List, [], ◌∷◌, ◌++◌, map, ◌==◌, is_some,
  exists, keep, update_where, if◌then◌else◌,
}
use warden_core.Text.{strip}
use warden_core.Json.{Json, get_key, str}
use warden_core.Model.{Env}
use warden_core.Catalog.Checked.{
  Pin, invalid, not_found, inactive, immutable_version, Checked, ok, refused, ◌>>=◌, ◌>>◌, demand,
  each, all, distinct,
}
use warden_core.Catalog.Parts.{StepFactsExtractor, entries}
use warden_core.Catalog.Workers.{WorkerBlueprint, parse_worker_blueprint}
use warden_core.Catalog.Steps.{Work, reason, commit, StepBlueprint, parse_step_blueprint, keys_of}
use warden_core.Catalog.Sagas.{
  spawn, join, NativeStep, Node, step, loop, native, Blueprint, SagaStepRef, SagaStep,
  validate_authoring, natives,
}
use warden_core.Catalog.Hydrate.{with_keys}
use warden_core.Catalog.Tables.{Row, Catalog, has_identity, find_row, lacks, link}
use warden_core.Catalog.Freeze.{Disk, by_ref}

-- One exception of a check on disk, as the registry reports it.
abbrev pub reported {ℓ} : {A : Type ℓ} → String → Checked A → Checked A
reported message (ok a) = ok a
reported message (refused e) = refused (invalid message)

abbrev pub ignore {ℓ} : {A : Type ℓ} → Checked A → Checked (Unit {0})
ignore (ok a) = ok tt
ignore (refused e) = refused e

-- validate_facts_extractors
unfoldable pub facts_compile : (String → Bool) → List StepFactsExtractor → Bool
facts_compile compiles facts =
    distinct (map (λ f. f.into) facts) && all (λ f. all (λ x. compiles x.path) f.fields) facts

-- _validate_reason_prompt, _validate_step_skills and the check of the facts, for a reason step
unfoldable pub validate_reason_assets : Disk → String → List String → Work → Checked (Unit {0})
validate_reason_assets disk worker keys (reason r) = do
  demand (disk.prompt_takes r.prompt keys) "prompt is invalid"
  ignore (reported "skills are invalid" (each (disk.load_skill_document worker) (entries r.skills)))
  demand (facts_compile disk.jsonpath_compiles (entries r.facts)) "facts extractors are invalid"
validate_reason_assets disk worker keys (commit t) = ok tt

-- _validate_step_policy
unfoldable pub validate_step_policy : Disk → Option String → Checked (Unit {0})
validate_step_policy disk policy = do
  artifact ← reported "policy is invalid" (by_ref disk.load_policy_artifact policy)
  demand (elim artifact [ none ↦ true | some a ↦ disk.cel_compiles a.cel_source ])
      "policy is invalid"

-- _validate_step_assets and _validate_step_compensation
unfoldable pub validate_files : Disk → Option String → Option String → Checked (Option Json)
validate_files disk schema compensation = reported "output_schema or compensation is invalid" (do
  ignore (by_ref disk.load_output_schema schema)
  by_ref disk.load_compensation_definition compensation)

-- _validate_step_blueprint_at_registration
unfoldable pub validate_step_blueprint_at_registration : Disk → StepBlueprint → Checked (Unit {0})
validate_step_blueprint_at_registration disk b = do
  ignore (validate_files disk b.output_schema b.compensation)
  validate_reason_assets disk b.worker (keys_of b.inputs) b.work
  validate_step_policy disk b.policy
  demand
      (all (λ p. elim p.schema [ none ↦ true | some s ↦ disk.port_schema_is_supported s ]) b.inputs)
      "inputs are invalid"

-- A row that must be there and active.
unfoldable pub require_active : {A : Type 0} → String → Pin → Option (Row A) → Checked (Row A)
require_active kind p none = refused (lacks kind p)
require_active kind p (some r) = if r.is_active then ok r else refused (inactive kind (p ∷ []))

abbrev pub worker_pin : StepBlueprint → Pin
worker_pin b = record { name = b.worker; version = b.worker_version }

-- _assert_step_worker_registered
unfoldable pub assert_step_worker_registered :
    List (Row WorkerBlueprint) → StepBlueprint → Checked (Unit {0})
assert_step_worker_registered rows b =
    ignore
      (require_active "worker" (worker_pin b) (find_row b.namespace b.worker b.worker_version rows))

abbrev pub when_compiles : Disk → Option String → Bool
when_compiles disk none = true
when_compiles disk (some cel) = disk.cel_compiles (strip cel)

-- resolve_worker_from_compensation; a worker that is no text is taken as left out
abbrev pub text_or : Option Json → String → String
text_or (some (str s)) d = if s == "" then d else s
text_or _ d = d

unfoldable pub resolve_worker_from_compensation : Json → Pin → Pin
resolve_worker_from_compensation comp forward = record {
  name = text_or (get_key "worker" comp) forward.name;
  version = text_or (get_key "worker_version" comp) forward.version;
}

abbrev pub capability_worker : SagaStep → Pin
capability_worker s = record { name = s.capability.worker; version = s.capability.worker_version }

-- _validate_one_saga_step_at_registration, and the workers that the step requires
unfoldable pub register_executable : Disk → SagaStep → Checked (List Pin)
register_executable disk s = do
  let c = s.capability
  compensation ← validate_files disk c.output_schema c.compensation
  validate_reason_assets disk c.worker (with_keys s.with_spec) c.work
  validate_step_policy disk c.policy
  demand (when_compiles disk s.when) "when.cel is invalid"
  ok (elim compensation [
    | none ↦ capability_worker s ∷ []
    | some comp ↦
        capability_worker s ∷ resolve_worker_from_compensation comp (capability_worker s) ∷ []
  ])

unfoldable pub flatten : {A : Type 0} → List (List A) → List A
flatten [] = []
flatten (xs ∷ rest) = xs ++ flatten rest

-- one node of _collect_saga_registration_workers
unfoldable pub node_workers : Disk → Node SagaStep → Checked (List Pin)
node_workers disk (step s) = register_executable disk s
node_workers disk (loop l) = do
  demand (disk.cel_compiles (strip l.until)) "until.cel is invalid"
  pins ← each (register_executable disk) l.steps
  ok (flatten pins)
node_workers disk (native n) = do demand (when_compiles disk n.when) "when.cel is invalid"; ok []

unfoldable pub collect_saga_registration_workers : Disk → List (Node SagaStep) → Checked (List Pin)
collect_saga_registration_workers disk nodes = do
  pins ← each (node_workers disk) nodes
  ok (flatten pins)

module _ {A : Type 0} (kind namespace : String) (rows : List (Row A)) where
  abbrev pub is_missing : Pin → Bool
  is_missing p = not (is_some (find_row namespace p.name p.version rows))

  abbrev pub is_disabled : Pin → Bool
  is_disabled p = elim (find_row namespace p.name p.version rows) [
    | none ↦ false
    | some r ↦ not r.is_active
  ]

  -- The report of the definitions that are missing, or else of those that are inactive.
  unfoldable pub assert_registered : List Pin → Checked (Unit {0})
  assert_registered pins = elim (keep is_missing pins) [
    | p ∷ ps ↦ refused (not_found kind (p ∷ ps))
    | [] ↦ elim (keep is_disabled pins) [ p ∷ ps ↦ refused (inactive kind (p ∷ ps)) | [] ↦ ok tt ]
  ]

abbrev pub children_of : List NativeStep → List Pin
children_of [] = []
children_of (n ∷ ns) = elim n.task [
  | spawn s ↦ record { name = s.saga_name; version = s.saga_version } ∷ children_of ns
  | join j ↦ children_of ns
]

-- _assert_saga_workers_registered and _assert_child_saga_definitions_registered
unfoldable pub assert_dependencies_registered :
    Catalog → List Pin → Blueprint SagaStep → Checked (Unit {0})
assert_dependencies_registered c workers b = do
  assert_registered "worker" b.namespace c.workers workers
  assert_registered "saga" b.namespace c.sagas (children_of (natives b.steps))

abbrev pub new_row : {A : Type 0} → String → String → String → A → Row A
new_row namespace name version body = record {
  namespace = namespace;
  name = name;
  version = version;
  is_active = true;
  body = body;
}

-- _create_worker_definition and _create_step_definition: the same whether the row is found first or
-- the INSERT meets the unique index.
unfoldable pub create_definition :
    {A : Type 0} → String → Row A → List (Row A) → Checked (List (Row A))
create_definition kind r rows =
    if exists (has_identity r.namespace r.name r.version) rows
    then refused (immutable_version kind (record { name = r.name; version = r.version }))
    else ok (rows ++ r ∷ [])

-- _upsert_saga_definition
unfoldable pub upsert_saga_definition :
    Blueprint SagaStepRef → List (Row (Blueprint SagaStepRef)) → List (Row (Blueprint SagaStepRef))
upsert_saga_definition b rows =
    if exists (has_identity b.namespace b.name b.version) rows
    then update_where (has_identity b.namespace b.name b.version) (λ r. record r { body = b }) rows
    else rows ++ new_row b.namespace b.name b.version b ∷ []

-- The write of a registration, in its transaction.
pub data Write : Type 0 where
  worker_row : WorkerBlueprint → Write
  step_row : StepBlueprint → Write
  saga_row : Blueprint SagaStepRef → Write

-- the transaction of _register_worker, _register_step and _register_saga
unfoldable pub apply_write : Write → Catalog → Checked Catalog
apply_write (worker_row w) c = do
  rows ← create_definition "worker" (new_row w.namespace w.name w.version w) c.workers
  ok (record c { workers = rows })
apply_write (step_row b) c = do
  rows ← create_definition "step" (new_row b.namespace b.name b.version b) c.steps
  ok (record c { steps = rows })
apply_write (saga_row b) c = ok (record c { sagas = upsert_saga_definition b c.sagas })

-- _set_definition_active, of the row of an identity
unfoldable pub set_definition_active :
    {A : Type 0} → String → Pin → Bool → List (Row A) → List (Row A)
set_definition_active namespace p active =
    update_where (has_identity namespace p.name p.version) (λ r. record r { is_active = active })

pub data Manifest : Type 0 where
  worker_manifest : WorkerBlueprint → Manifest
  step_manifest : StepBlueprint → Manifest
  saga_manifest : Blueprint SagaStepRef → Manifest

module _ (env : Env) (disk : Disk) where
  -- _register_worker, _register_step and _register_saga before their transaction: what to write, if
  -- the checks pass on the catalog that they read. A dry run ends here.
  unfoldable pub check_manifest : Catalog → Manifest → Checked Write
  check_manifest c (worker_manifest w) = do valid ← parse_worker_blueprint w; ok (worker_row valid)
  check_manifest c (step_manifest b) = do
    valid ← parse_step_blueprint b
    assert_step_worker_registered c.workers valid
    validate_step_blueprint_at_registration disk valid
    ok (step_row valid)
  check_manifest c (saga_manifest b) = do
    authoring ← validate_authoring disk.jsonpath_compiles b
    hydrated ← link env disk.jsonpath_compiles c.steps authoring.namespace authoring
    workers ← collect_saga_registration_workers disk hydrated.steps
    assert_dependencies_registered c workers hydrated
    ok (saga_row authoring)

  -- register_manifest_from_dict, with nothing in between its checks and its transaction
  unfoldable pub register_manifest : Manifest → Catalog → Checked Catalog
  register_manifest m c = do write ← check_manifest c m; apply_write write c
