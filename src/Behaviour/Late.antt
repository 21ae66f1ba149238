-- ===== src/Behaviour/Late.antt =====
-- Results that a worker reports for a row that has been undone already.
use warden_core.Prelude.{String, ◌≡◌, refl, some, ◌∷◌, inl, inr, Bool-cases}
use warden_core.Model.{
  EventType, StepStatus, SagaStatus, Step, Saga, Event, ingest_deduplicated, World, Env,
  saga_awaits_recovery,
}
use warden_core.Tx.{done, writes, ◌>>=◌, with_some}
use warden_core.Store.{find_step, hook}
use warden_core.Engine.Chain.{Chain}
use warden_core.Engine.Handlers.{
  ingest_key, notify_skipped_ingest, stale_step_completed, handle_step_completed, stale_step_failed,
  handle_step_failed, handle_compensation_completed, dispatch,
}

-- The event is dropped: nothing but the audit changes.
abbrev pub IsDropped : Env → Chain → EventType → Saga → Event → World → Type 0
IsDropped env c x saga e w =
    (reason : String) × (dispatch env c x saga e w
      ≡ (done tt, record w { audit = ingest_deduplicated (ingest_key e) reason ∷ w.audit }))

module _ (env : Env) (c : Chain) (saga : Saga) (e : Event) (w : World) where
  late_completed :
      (step : Step)
      → find_step saga.trace_id e.step_span_id w ≡ (done (some step), w)
      → step.status ≡ StepStatus.compensated
      → IsDropped env c EventType.step_completed saga e w
  unfolding dispatch handle_step_completed stale_step_completed notify_skipped_ingest ◌>>=◌
      with_some hook writes
  late_completed step at h = elim (Bool-cases (saga_awaits_recovery saga.status)) [
    | inl t ↦ ("awaiting_recovery", rw (at, t) refl)
    | inr f ↦ ("late_step_state", rw (at, f, h) refl)
  ]

  stale_compensated :
      (s : SagaStatus)
      → (reason : String) × (stale_step_failed env c s StepStatus.compensated ≡ some reason)
  unfolding stale_step_failed
  stale_compensated SagaStatus.awaiting_recovery = ("awaiting_recovery", refl)
  stale_compensated SagaStatus.pending = ("terminal_step_state", refl)
  stale_compensated SagaStatus.running = ("terminal_step_state", refl)
  stale_compensated SagaStatus.awaiting_human = ("terminal_step_state", refl)
  stale_compensated SagaStatus.compensating = ("terminal_step_state", refl)
  stale_compensated SagaStatus.compensated = ("terminal_step_state", refl)
  stale_compensated SagaStatus.completed = ("terminal_step_state", refl)
  stale_compensated SagaStatus.failed = ("terminal_step_state", refl)

  late_failed :
      (step : Step)
      → find_step saga.trace_id e.step_span_id w ≡ (done (some step), w)
      → step.status ≡ StepStatus.compensated
      → IsDropped env c EventType.step_failed saga e w
  unfolding dispatch handle_step_failed notify_skipped_ingest ◌>>=◌ with_some hook writes
  late_failed step at h =
      let (reason, stale) = stale_compensated saga.status in (reason, rw (at, h, stale) refl)

  late_undone :
      (step : Step)
      → find_step saga.trace_id e.step_span_id w ≡ (done (some step), w)
      → step.status ≡ StepStatus.compensated
      → IsDropped env c EventType.step_compensated saga e w
  unfolding dispatch handle_compensation_completed notify_skipped_ingest ◌>>=◌ with_some hook writes
  late_undone step at h = ("already_compensated", rw (at, h) refl)

  -- For a row that has been compensated, a worker's late STEP_COMPLETED, STEP_FAILED or
  -- STEP_COMPENSATED is dropped, whatever the saga's status: the handler returns, and no table but
  -- the audit changes.
  pub dispatch-compensated :
      (step : Step)
      → find_step saga.trace_id e.step_span_id w ≡ (done (some step), w)
      → step.status ≡ StepStatus.compensated
      → IsDropped env c EventType.step_completed saga e w
        × IsDropped env c EventType.step_failed saga e w
        × IsDropped env c EventType.step_compensated saga e w
  dispatch-compensated step at h =
      (late_completed step at h, late_failed step at h, late_undone step at h)
