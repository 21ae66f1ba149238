-- ===== src/Engine/Start.antt =====
-- engine/api/saga_start.py: a saga and its first forward rows from a catalog definition, and the
-- idempotent start by a client's key.
use warden_core.Prelude.{
  String, Bool, true, false, ◌&&◌, Option, none, some, List, [], ◌∷◌, ◌++◌, ◌==◌, if◌then◌else◌,
  find_first, is_some, length,
}
use warden_core.Json.{Json, str, obj, end, field, set_key, empty_dict, truthy}
use warden_core.Model.{
  SagaStatus, EventType, StepSpec, Saga, TopStep, single, loop, LoopState, SagaDefinition, Hydrated,
  frozen, broken, saga_created, Env,
}
use warden_core.Tx.{
  Tx, Action, value_error, integrity, definition_not_found, definition_inactive, start_conflict,
  pure, raise, reads, writes, ◌>>=◌, ◌>>◌, with_some, in_transaction,
}
use warden_core.Store.{hook, draw, emit, saga_of}
use warden_core.Engine.Terminal.{saga_message}
use warden_core.Engine.Compensation.{step_context_entry_for_saga}
use warden_core.Engine.Blueprint.{
  take_initial_materialization_segment, build_loop_definitions, initial_loops_context,
  materialize_executable_steps,
}

abbrev pub is_definition : String → String → String → SagaDefinition → Bool
is_definition namespace name version d =
    d.namespace == namespace && d.name == name && d.version == version

-- _require_saga_definition
unfoldable pub require_saga_definition : String → String → String → Tx SagaDefinition
require_saga_definition namespace name version = do
  found ← reads (λ w. find_first (is_definition namespace name version) w.definitions)
  with_some found (raise definition_not_found)
      (λ d. if d.is_active then pure d else raise definition_inactive)

abbrev pub has_start_key : String → String → Saga → Bool
has_start_key namespace key s =
    s.namespace == namespace && elim s.start_idempotency_key [ none ↦ false | some k ↦ k == key ]

-- _resolve_idempotent_start
unfoldable pub resolve_idempotent_start : String → String → String → Tx (Option String)
resolve_idempotent_start namespace definition_id key = do
  same ← reads (λ w.
      find_first (λ s. has_start_key namespace key s && s.definition_id == definition_id) w.sagas)
  with_some same
      (do
        other ← reads (λ w. find_first (has_start_key namespace key) w.sagas)
        with_some other (pure none)
            (λ s. if s.definition_id == definition_id then pure none else raise start_conflict))
      (λ s. pure (some s.trace_id))

abbrev body_shells : List StepSpec → Json → Json
body_shells [] steps = steps
body_shells (s ∷ rest) steps =
    set_key s.step_id (step_context_entry_for_saga none) (body_shells rest steps)

-- The shells of `context.steps` for _executable_shell_ids
unfoldable pub step_shells : List TopStep → Json
step_shells [] = empty_dict
step_shells (single s ∷ rest) =
    set_key s.step_id (step_context_entry_for_saga none) (step_shells rest)
step_shells (loop l ∷ rest) = body_shells l.body (step_shells rest)

abbrev pub new_saga :
    SagaDefinition → List TopStep → LoopState → Json → Option String → Option String → String → Saga
new_saga d steps state input key parent trace_id = record {
  trace_id = trace_id;
  namespace = d.namespace;
  status = SagaStatus.pending;
  context = obj (
      field "input" (if truthy input then input else empty_dict)
        (field "steps" (step_shells steps) (field "loops" (initial_loops_context steps) end)));
  frozen_steps = steps;
  loop_definitions = build_loop_definitions steps;
  loop_state = state;
  parent_trace_id = parent;
  definition_id = d.id;
  start_idempotency_key = key;
}

-- SagaInstance.create
unfoldable pub create_saga : Saga → Action
create_saga saga = do
  taken ← reads (saga_of saga.trace_id)
  if is_some taken then raise integrity else writes (λ w. record w { sagas = w.sagas ++ saga ∷ [] })

abbrev pub hydrate : Hydrated → Tx (List TopStep)
hydrate (frozen steps) = pure steps
hydrate (broken message) = raise (value_error message)

-- _create_saga_and_steps
unfoldable pub create_saga_and_steps :
    Env → SagaDefinition → Json → Option String → Option String → Tx String
create_saga_and_steps env d input key parent = do
  steps ← hydrate d.hydrated
  let (segment, state) = take_initial_materialization_segment steps
  trace_id ← draw env
  let saga = new_saga d steps state input key parent trace_id
  create_saga saga
  hook (saga_created trace_id (length segment))
  materialize_executable_steps env saga segment 0
  emit env (saga_message saga EventType.saga_started (obj (field "status" (str "PENDING") end)))
  pure trace_id

-- StartSagaResult
pub record StartSagaResult : Type 0 where
  pub trace_id : String
  pub created : Bool

abbrev pub resolved : SagaDefinition → Option String → Tx (Option String)
resolved d none = pure none
resolved d (some key) = resolve_idempotent_start d.namespace d.id key

-- start_saga; the check before the transaction is repeated inside it.
unfoldable pub start_saga :
    Env → String → String → String → Json → Option String → Tx StartSagaResult
start_saga env namespace name version input key = do
  definition ← require_saga_definition namespace name version
  existing ← resolved definition key
  with_some existing
      (in_transaction (do
        d ← require_saga_definition namespace name version
        again ← resolved d key
        with_some again
            (do
              trace_id ← create_saga_and_steps env d input key none
              pure (record { trace_id = trace_id; created = true }))
            (λ t. pure (record { trace_id = t; created = false }))))
      (λ t. pure (record { trace_id = t; created = false }))
