-- ===== src/Safeguards/Decisions.antt =====
-- The requests of reviewers (Recovery/Decisions).
use warden_core.Prelude.{String, ◌≡◌, Bool, not, ◌&&◌, Option, some, find_first}
use warden_core.Json.{Json}
use warden_core.Model.{OutboxStatus, Step, text_key, Message, OutboxRow, World, Env}
use warden_core.Tx.{Tx, Outcome, done, raised, pure, ◌>>◌}
use warden_core.Store.{same_key, is_command}
use warden_core.Recovery.Decisions.{
  human_decision_idempotency_key, is_event_row, emit_human_decision,
}

-- A row of the topic waits under the key.
record Waits (k : String) (w : World) : Type 0 where
  row : OutboxRow
  found : find_first (is_event_row k) w.outbox ≡ some row
  waiting : row.status ≡ OutboxStatus.pending

is_event : String → Message → Bool
is_event k m = not (is_command m.payload) && same_key m.key (text_key k)

abbrev text_of : Outcome String → String
text_of (done s) = s
text_of (raised e) = ""

module _ (env : Env) (namespace t span : String) where
  -- The rest of a request, once the step is loaded.
  abbrev decide : String → Option Json → Option Json → Step → Tx String
  decide decision output error_details step = do
    emit_human_decision env namespace t span decision (human_decision_idempotency_key t span) output
        error_details
    pure "queued"
