-- ===== src/Catalog/Workers.antt =====
-- common/schemas/worker.py: the manifest of a worker and its validators.
use warden_core.Prelude.{String, Bool, true, false, not, ◌||◌, Option, none, some, List}
use warden_core.Text.{is_blank}
use warden_core.Catalog.Checked.{Checked, ok, ◌>>◌, demand, all}

-- ModelProvider
pub data ModelProvider : Type 0 where
  openai anthropic azure local mock : ModelProvider

-- MCPServerConfig; the transport sse is refused when the field is read
pub data Transport : Type 0 where
  streamable_http stdio : Transport

pub record McpServerConfig : Type 0 where
  pub name : String
  pub transport : Transport
  pub url : Option String
  pub command : Option String
  pub args : List String

pub record WorkerBlueprint : Type 0 where
  pub name : String
  pub namespace : String
  pub version : String
  pub provider : ModelProvider
  pub model_name : String
  pub system_prompt : String
  pub tool_sources : List McpServerConfig
  pub adapter : String

abbrev pub is_given : Option String → Bool
is_given none = false
is_given (some s) = not (is_blank s)

-- validate_transport_fields
unfoldable pub transport_fits : McpServerConfig → Bool
transport_fits s = elim s.transport [
  | streamable_http ↦ is_given s.url
  | stdio ↦ is_given s.command
]

abbrev pub is_mock : ModelProvider → Bool
is_mock ModelProvider.mock = true
is_mock _ = false

-- parse_worker_blueprint: validate_transport_fields and validate_mock_model_name
unfoldable pub parse_worker_blueprint : WorkerBlueprint → Checked WorkerBlueprint
parse_worker_blueprint w = do
  demand (all transport_fits w.tool_sources) "transport requires a non-empty url or command"
  demand (not (is_mock w.provider) || not (is_blank w.model_name))
      "mock provider requires a non-empty model_name (demo script label)"
  ok w
