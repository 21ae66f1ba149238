-- ===== src/Handover/Unresolved.antt =====
-- A compensation whose adapter cannot be resolved: what the worker sends, and what the engine does
-- with it.
use warden_core.Prelude.{
  String, ◌≡◌, refl, true, false, some, List, [], ◌∷◌, ◌++◌, exists, is_some, find_first,
}
use mathlib.Core.List.{Memᴰ}
use warden_core.Json.{Json, str, obj, end, field}
use warden_core.Model.{
  StepStatus, SagaStatus, EventType, Saga, Step, Event, Message, messages, World, Env,
}
use warden_core.Tx.{done, pure, reads, writes, ◌>>=◌, when, in_transaction, with_some}
use warden_core.Store.{same_slot, find_step, insert_message, emit, hook}
use warden_core.Delivery.Claims.{
  is_owned_by, verify_claim_before_emit, claim_still_owned, release_command_claim,
}
use warden_core.Delivery.Worker.{
  Scope, Execution, result_message, report_result, write_failure,
  finalize_adapter_resolution_failure, run_command,
}
use warden_core.Engine.Chain.{Chain}
use warden_core.Engine.Handlers.{
  notify_skipped_ingest, stale_step_failed, handle_step_failed, dispatch,
}
use warden_core.Behaviour.Late.{IsDropped}
use warden_core.Ledger.Slots.{messages-append}

mem_last : (m : Message) (ms : List Message) → Memᴰ m (ms ++ m ∷ [])
mem_last m [] = Memᴰ.head refl
mem_last m (x ∷ xs) = Memᴰ.tail (mem_last m xs)

abbrev pub unresolved_output : String → Json
unresolved_output error =
    obj (field "error" (str error) (field "code" (str "adapter_resolution_failed") end))

module _ (env : Env) (c : Chain) (saga : Saga) (e : Event) (w : World) where
  stale_compensating :
      (s : SagaStatus)
      → (reason : String) × (stale_step_failed env c s StepStatus.compensating ≡ some reason)
  unfolding stale_step_failed
  stale_compensating SagaStatus.awaiting_recovery = ("awaiting_recovery", refl)
  stale_compensating SagaStatus.pending = ("terminal_step_state", refl)
  stale_compensating SagaStatus.running = ("terminal_step_state", refl)
  stale_compensating SagaStatus.awaiting_human = ("terminal_step_state", refl)
  stale_compensating SagaStatus.compensating = ("terminal_step_state", refl)
  stale_compensating SagaStatus.compensated = ("terminal_step_state", refl)
  stale_compensating SagaStatus.completed = ("terminal_step_state", refl)
  stale_compensating SagaStatus.failed = ("terminal_step_state", refl)

  undo_failed :
      (step : Step)
      → find_step saga.trace_id e.step_span_id w ≡ (done (some step), w)
      → step.status ≡ StepStatus.compensating
      → IsDropped env c EventType.step_failed saga e w
  unfolding dispatch handle_step_failed notify_skipped_ingest ◌>>=◌ with_some hook writes
  undo_failed step here waits =
      let (reason, stale) = stale_compensating saga.status in (reason, rw (here, waits, stale) refl)

-- A worker that owns the claim of a compensation and cannot resolve its adapter puts STEP_FAILED
-- for the undo row in the outbox, if no row has that key yet; and while the undo row is
-- COMPENSATING, the engine drops that event: nothing but the audit changes.
pub unresolved_undo-IsDropped :
    (env : Env) (c : Chain) (s : Scope) (token error : String) (saga : Saga) (step : Step)
    (e : Event) (w w' : World)
    → is_some (find_first (is_owned_by s.idempotency_key token) w.claims) ≡ true
    → exists
        (same_slot (result_message s EventType.step_failed (unresolved_output error)))
        (messages w.outbox)
      ≡ false
    → find_step saga.trace_id e.step_span_id w' ≡ (done (some step), w')
    → step.status ≡ StepStatus.compensating
    → Memᴰ
        (result_message s EventType.step_failed (unresolved_output error))
        (messages (run_command env s true token (Execution.unresolved error) w).1.outbox)
      × IsDropped env c EventType.step_failed saga e w'
unfolding run_command finalize_adapter_resolution_failure write_failure verify_claim_before_emit
    claim_still_owned report_result emit insert_message result_message hook release_command_claim
    in_transaction when ◌>>=◌ reads writes pure
unresolved_undo-IsDropped env c s token error saga step e w w' owned free here waits = (
  rw (owned, free, messages-append w.outbox _) (mem_last _ (messages w.outbox)),
  undo_failed env c saga e w' step here waits,
)
