-- ===== src/Examples/Data.antt =====
-- One saga with a charge that has run and a shipment that is running, and the services it needs.
use Prim.Native.String.{◌++◌ as join}
use warden_core.Prelude.{ℕ, zero, suc, String, true, false, Option, none, some, List, [], ◌∷◌}
use warden_core.Json.{Json, bool, str, obj, end, field, empty_dict, get_key}
use warden_core.Model.{
  StepStatus, SagaStatus, EventType, StepKind, OnFailure, StepSpec, Step, TopStep, single, loop,
  LoopSpec, Saga, Event, World, Env, holds,
}
use warden_core.Tx.{Action, skip}

-- Services that accept everything; uuids are `u`, `uu`, and so on.
abbrev pub uuids : ℕ → String
uuids zero = "u"
uuids (suc n) = join "u" (uuids n)

-- Two texts for the two values of one field, in place of a text for all values.
abbrev force_text : Option Json → String
force_text (some (bool true)) = "forced"
force_text _ = "plain"

abbrev pub services : Env
services = record {
  eval_cel = λ s j. holds true;
  schema_error = λ v s. none;
  jsonpath = λ p j. get_key p j;
  command_error = λ p. none;
  uuid_hex = uuids;
  show_number = uuids;
  sha256_hex = λ s. s;
  canonical_json = λ j. force_text (get_key "force" j);
  payload_bytes = λ p. 1;
  outbox_max_payload_bytes = 1000;
  stale_claim_seconds = 5;
  outbox_stale_seconds = 5;
  outbox_reap_batch_size = 3;
}

abbrev pub step_spec : String → StepKind → OnFailure → Option Json → StepSpec
step_spec id kind strategy undo = record {
  step_id = id;
  step_name = id;
  step_kind = kind;
  timeout_seconds = 60;
  max_turns = 4;
  worker = "payments";
  worker_version = "1";
  tools_allow = "charge" ∷ [];
  resources_allow = [];
  skills_allow = [];
  skills_definition = none;
  parameters_spec = [];
  input_ports = empty_dict;
  prompt_ref = none;
  prompt_definition = none;
  compensation_definition = undo;
  output_schema = none;
  policy_name = none;
  policy_definition = none;
  hitl_required = false;
  hitl_max_retries = none;
  hitl_retry_guidance = none;
  on_failure_strategy = strategy;
  when_cel = none;
  spawn = none;
  join = none;
}

abbrev pub row : String → ℕ → StepStatus → StepSpec → Step
row span n status spec = record {
  span_id = span;
  compensates_span_id = none;
  saga_trace_id = "t";
  namespace = "shop";
  spec = spec;
  order_index = n;
  forward_seq = n;
  loop_id = none;
  iteration = none;
  idempotency_key = span;
  status = status;
  end_time = none;
  resolved_arguments = empty_dict;
  output_payload = none;
  error_details = none;
  pending_review_payload = none;
  hitl_review_started_at = none;
  hitl_retry_count = 0;
}

abbrev pub undoable : Option Json
undoable = some (obj (field "tool" (str "refund") end))

abbrev pub charge : StepSpec
charge = step_spec "charge" StepKind.commit OnFailure.auto_compensate undoable

abbrev pub ship : StepSpec
ship = step_spec "ship" StepKind.commit OnFailure.await_operator none

abbrev pub retry_loop : LoopSpec
retry_loop = record { loop_id = "l"; max_iterations = 3; until_cel = "true"; body = ship ∷ [] }

abbrev pub blueprint : List TopStep
blueprint = single charge ∷ loop retry_loop ∷ single ship ∷ []

abbrev pub order : Saga
order = record {
  trace_id = "t";
  namespace = "shop";
  status = SagaStatus.running;
  context = obj (field "input" empty_dict (field "steps" empty_dict end));
  frozen_steps = blueprint;
  loop_definitions = retry_loop ∷ [];
  loop_state = record { next_blueprint_index = 2; active_loop_id = some "l" };
  parent_trace_id = none;
  definition_id = "d";
  start_idempotency_key = none;
}

abbrev pub charged : Step
charged = row "a" 0 StepStatus.completed charge

abbrev pub shipping : Step
shipping = row "b" 1 StepStatus.in_progress ship

abbrev pub undone : Step
undone = row "c" 0 StepStatus.compensated charge

abbrev pub tables : List Step → World
tables rows = record {
  sagas = order ∷ [];
  steps = rows;
  children = [];
  outbox = [];
  posted = 0;
  ingested = [];
  claims = [];
  recoveries = [];
  workers = [];
  definitions = [];
  audit = [];
  drawn = 0;
  now = 7;
}

abbrev pub shop : World
shop = tables (charged ∷ shipping ∷ [])

abbrev pub event : EventType → String → Event
event x span = record {
  event_type = x;
  namespace = "shop";
  saga_trace_id = "t";
  step_span_id = span;
  output = none;
  error_details = none;
  retry_guidance = none;
}

abbrev pub no_wake : String → Action
no_wake t = skip
