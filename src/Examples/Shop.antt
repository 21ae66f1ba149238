-- ===== src/Examples/Shop.antt =====
-- A shop: its catalog, and the saga of an order.
use warden_core.Prelude.{String, true, false, none, some, List, [], ◌∷◌}
use warden_core.Json.{empty_dict}
use warden_core.Catalog.Checked.{Checked, ok}
use warden_core.Catalog.Parts.{AgentAdapter}
use warden_core.Catalog.Workers.{WorkerBlueprint, ModelProvider}
use warden_core.Catalog.Steps.{StepBlueprint, ReasonFields, reason, Capability, to_capability}
use warden_core.Catalog.Tighten.{Overrides}
use warden_core.Catalog.Sagas.{
  spawn, join, NativeStep, Node, step, native, Blueprint, SagaStepRef, SagaStep,
}
use warden_core.Catalog.Tables.{Row, Catalog}
use warden_core.Catalog.Freeze.{Disk}
use warden_core.Catalog.Registry.{set_definition_active}
use warden_core.Catalog.Freeze.{worker_step_fields, native_step_fields}
use warden_core.Model.{TopStep, single}
use warden_core.Linking.Once.{Table, Slot}
use warden_core.Linking.Narrow.{overridden}

abbrev pub checker : ReasonFields
checker = record {
  prompt = "check.md";
  agent_adapter = AgentAdapter.react;
  max_turns = 25;
  max_step_tokens = some 1000;
  max_completion_tokens = none;
  tools = none;
  skills = none;
  facts = none;
}

abbrev pub check_order : StepBlueprint
check_order = record {
  name = "check-order";
  namespace = "shop";
  version = "1";
  title = none;
  inputs = [];
  worker = "clerk";
  worker_version = "1";
  compensation = none;
  timeout_seconds = 600;
  output_schema = none;
  policy = none;
  hitl = true;
  hitl_max_retries = some 3;
  hitl_retry_guidance = none;
  resources = none;
  on_failure = none;
  work = reason checker;
}

abbrev pub stricter : Overrides
stricter = record {
  hitl = none;
  hitl_max_retries = some 1;
  hitl_retry_guidance = none;
  timeout_seconds = some 60;
  max_turns = some 5;
  max_step_tokens = some 500;
  max_completion_tokens = none;
}

abbrev pub strict : Capability
strict = overridden stricter (to_capability check_order)

abbrev pub disk : Disk
disk = record {
  load_compensation_definition = λ r. ok empty_dict;
  load_output_schema = λ r. ok empty_dict;
  load_policy_artifact = λ r. ok (record { name = r; version = "1"; cel_source = "true" });
  freeze_prompt_definition = λ r. ok "Check the order.";
  load_skill_document = λ w r. ok empty_dict;
  cel_compiles = λ c. true;
  jsonpath_compiles = λ p. true;
  prompt_takes = λ p ks. true;
  port_schema_is_supported = λ j. true;
}

abbrev pub unchanged : Overrides
unchanged = record {
  hitl = none;
  hitl_max_retries = none;
  hitl_retry_guidance = none;
  timeout_seconds = none;
  max_turns = none;
  max_step_tokens = none;
  max_completion_tokens = none;
}

abbrev pub check_ref : SagaStepRef
check_ref = record {
  id = "check";
  name = none;
  use_name = "check-order";
  version = "1";
  with_spec = [];
  when = none;
  overrides = unchanged;
}

abbrev pub fan_out : NativeStep
fan_out = record {
  id = "fan-out";
  name = "Fan out";
  timeout_seconds = 600;
  when = none;
  task = spawn (record {
    saga_name = "ship";
    saga_version = "1";
    items_from = "$.input.items";
    item_var = "item";
    result_from = "$.steps";
    max_children = none;
    input = [];
  });
}

abbrev pub wait : NativeStep
wait = record {
  id = "wait";
  name = "Wait";
  timeout_seconds = 600;
  when = none;
  task = join (record { spawn_step_id = "fan-out"; allow_zero_success = true });
}

abbrev pub plan : String → List (Node SagaStepRef) → Blueprint SagaStepRef
plan name steps = record {
  name = name;
  namespace = "shop";
  version = "1";
  description = "";
  steps = steps;
}

abbrev pub ordering : Blueprint SagaStepRef
ordering = plan "order" (step check_ref ∷ native fan_out ∷ native wait ∷ [])

abbrev pub clerk : WorkerBlueprint
clerk = record {
  name = "clerk";
  namespace = "shop";
  version = "1";
  provider = ModelProvider.openai;
  model_name = "m";
  system_prompt = "";
  tool_sources = [];
  adapter = "langchain";
}

abbrev pub row_of : {A : Type 0} → String → A → Row A
row_of name body = record {
  namespace = "shop";
  name = name;
  version = "1";
  is_active = true;
  body = body;
}

abbrev pub catalog : Catalog
catalog = record {
  workers = row_of "clerk" clerk ∷ [];
  steps = row_of "check-order" check_order ∷ [];
  sagas = row_of "ship" (plan "ship" (step check_ref ∷ [])) ∷ [];
}

-- A later catalog: the worker is switched off.
abbrev pub closed : Catalog
closed = record catalog {
  workers =
      set_definition_active "shop" (record { name = "clerk"; version = "1" }) false catalog.workers;
}

abbrev pub resolve : String → String → Checked StepBlueprint
resolve name version = ok check_order

abbrev pub checked_step : SagaStep
checked_step = record {
  id = "check";
  name = "check-order";
  with_spec = [];
  when = none;
  capability = to_capability check_order;
}

abbrev pub hydrated : List (Node SagaStep)
hydrated = step checked_step ∷ native fan_out ∷ native wait ∷ []

abbrev pub frozen : List TopStep
frozen =
    single (
      worker_step_fields (record {
        step = checked_step;
        compensation_definition = none;
        policy_definition = none;
        output_schema_definition = none;
        prompt_definition = some "Check the order.";
        skills_definition = none;
      }))
    ∷ single (native_step_fields fan_out)
    ∷ single (native_step_fields wait)
    ∷ []

-- The catalog before the worker was registered, and the same worker with another model.
abbrev pub opening : Catalog
opening = record catalog { workers = [] }

abbrev pub other_clerk : WorkerBlueprint
other_clerk = record clerk { model_name = "n" }

abbrev pub clerk_slot : Slot
clerk_slot = record {
  table = Table.worker_table;
  namespace = "shop";
  pin = record { name = "clerk"; version = "1" };
}
