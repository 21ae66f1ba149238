-- ===== src/Engine/Handlers.antt =====
-- engine/logic.py: the handlers of the ingest events, and process_saga_event, which runs one of them
-- in a transaction. `c` holds the engine's callbacks (Chain.antt).
mod Results
mod Review
unfoldable pub use Results.*
unfoldable pub use Review.*
use warden_core.Prelude.{ℕ, Bool, not, ◌&&◌, ◌==◌, if◌then◌else◌, find_first}
use warden_core.Model.{EventType, Saga, Event, Env}
use warden_core.Tx.{
  Action, unrecoverable, raise, reads, ◌>>=◌, ◌>>◌, with_some, skip, in_transaction,
}
use warden_core.Store.{claimed, claim_ingest}
use warden_core.Engine.Terminal.{handle_saga_completion}
use warden_core.Engine.Chain.{Chain, chain}

module _ (env : Env) (c : Chain) where
  -- the `match event.event_type` of process_saga_event
  unfoldable pub dispatch : EventType → Saga → Event → Action
  dispatch EventType.saga_started saga e = handle_saga_started env c saga
  dispatch EventType.step_completed saga e = handle_step_completed env c saga e
  dispatch EventType.human_approved saga e = handle_hitl_approved env c saga e
  dispatch EventType.human_rejected saga e = handle_human_rejected env c saga e
  dispatch EventType.human_retry saga e = handle_human_retry env c saga e
  dispatch EventType.step_failed saga e = handle_step_failed env c saga e
  dispatch EventType.step_compensated saga e = handle_compensation_completed env c saga e
  dispatch EventType.compensation_failed saga e = handle_compensation_failed env c saga e
  dispatch EventType.saga_completed saga e = handle_saga_completion env c.wake saga.trace_id
  dispatch EventType.saga_compensated saga e = skip
  dispatch EventType.saga_failed saga e = skip

  abbrev is_saga_of : Event → Saga → Bool
  is_saga_of e s = s.trace_id == e.saga_trace_id && s.namespace == e.namespace

  -- process_saga_event behind the claim of its dedup key
  unfoldable pub handle_claimed : Event → Action
  handle_claimed e = do
    found ← reads (λ w. find_first (is_saga_of e) w.sagas)
    with_some found (raise (unrecoverable "Saga not found")) (λ saga. dispatch e.event_type saga e)

  unfoldable pub handle_event : Event → Action
  handle_event e = claim_ingest (ingest_key e) >> handle_claimed e

  -- the body of the transaction of process_saga_event
  unfoldable pub ingest : Event → Action
  ingest e = do
    taken ← reads (claimed (ingest_key e))
    if taken then notify_skipped_ingest e "processed_ingest_claim" else handle_event e

-- process_saga_event
unfoldable pub process_saga_event : Env → ℕ → Event → Action
process_saga_event env fuel e = in_transaction (ingest env (chain env fuel) e)
