-- ===== src/Model/Database.antt =====
-- The tables that the engine reads and writes, as one record, and the services that its
-- transactions call: CEL (celpy), JSON Schema (jsonschema), JSONPath (jsonpath_ng), the
-- validation of a command by its pydantic model, uuid4, sha256, `str` of a
-- number, `json.dumps` with sorted keys.
use warden_core.Prelude.{ℕ, String, Bool, Option, List}
use warden_core.Json.{Json}
use warden_core.Model.Rows.{Step, Saga, SagaChild, SagaDefinition}
use warden_core.Model.Events.{Key, Payload, Hook, OutboxRow, Claim, Recovery}

pub record WorkerRow : Type 0 where
  pub namespace : String
  pub name : String
  pub version : String

-- `claims` is ProcessedCommand, `posted` the number of outbox rows written so far, `ingested` holds
-- the keys of ProcessedIngestEvent, `drawn` the number of uuids drawn so far, `audit` the hooks
-- called so far, the latest first.
pub record World : Type 0 where
  pub sagas : List Saga
  pub steps : List Step
  pub children : List SagaChild
  pub outbox : List OutboxRow
  pub posted : ℕ
  pub ingested : List Key
  pub claims : List Claim
  pub recoveries : List Recovery
  pub workers : List WorkerRow
  pub definitions : List SagaDefinition
  pub audit : List Hook
  pub drawn : ℕ
  pub now : ℕ

-- The verdict of a CEL program: a truth value, or the message of a PolicyEvaluationError.
pub data Verdict : Type 0 where
  holds : Bool → Verdict
  fails : String → Verdict

-- The services, and settings: the size limit of a command, the two ages (in the unit of the clock)
-- at which a claim and a row in delivery are stale, and the rows that one round of maintenance
-- resets. `eval_cel` compiles the text without its surrounding white space.
pub record Env : Type 0 where
  pub eval_cel : String → Json → Verdict
  pub schema_error : Json → Json → Option String
  pub jsonpath : String → Json → Option Json
  pub command_error : Payload → Option String
  pub uuid_hex : ℕ → String
  pub show_number : ℕ → String
  pub sha256_hex : String → String
  pub canonical_json : Json → String
  pub payload_bytes : Payload → ℕ
  pub outbox_max_payload_bytes : ℕ
  pub stale_claim_seconds : ℕ
  pub outbox_stale_seconds : ℕ
  pub outbox_reap_batch_size : ℕ
