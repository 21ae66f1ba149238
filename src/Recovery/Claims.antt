-- ===== src/Recovery/Claims.antt =====
-- engine/recovery.py: the rows that a recovery works on, the claim of the worker that may still
-- run, and the outbox row of its command.
use warden_core.Prelude.{
  String, Bool, true, false, not, ◌&&◌, ◌||◌, ◌==◌, eqb, ltb, if◌then◌else◌, find_first, keep,
}
use warden_core.Model.{
  OutboxStatus, EventType, Saga, Step, event_key, text_key, OutboxRow, Env, is_commit,
}
use warden_core.Tx.{
  Tx, Action, Error, recovery_not_found, recovery_conflict, claim_active, pure, raise, reads,
  writes, ◌>>=◌, ◌>>◌, with_some, skip,
}
use warden_core.Store.{has_trace, has_span, same_key, is_command, release_worker_claim_for_retry}
use warden_core.Delivery.Queue.{set_rows, stale_outbox_cutoff}
use warden_core.Delivery.Claims.{claims_key, claim_is_stale, stale_claim_cutoff}

-- `if not ok: raise error`
abbrev pub demand : Bool → Error → Action
demand ok e = if ok then skip else raise e

-- _load_saga_step_locked
unfoldable pub load_saga_step_locked : String → String → String → Tx (Saga × Step)
load_saga_step_locked namespace t span = do
  saga ← reads (λ w. find_first (λ s. has_trace t s && s.namespace == namespace) w.sagas)
  with_some saga (raise recovery_not_found) (λ s. do
    step ← reads (λ w.
        find_first (λ r. has_span span r && r.saga_trace_id == t && r.namespace == namespace)
          w.steps)
    with_some step (raise recovery_not_found) (λ r. pure (s, r)))

-- _enforce_commit_force_gating
unfoldable pub enforce_commit_force_gating : Step → Bool → Bool → Action
enforce_commit_force_gating step force allow_destructive =
    demand (not (force && is_commit step.spec.step_kind && not allow_destructive))
      (recovery_conflict "force retry on commit steps requires allow_destructive=true")

-- _handle_active_claim
unfoldable pub handle_active_claim : Env → String → Bool → Action
handle_active_claim env k force = do
  found ← reads (λ w. find_first (claims_key k) w.claims)
  with_some found skip (λ claim. if claim.result_emitted then skip else do
    cutoff ← stale_claim_cutoff env
    if claim_is_stale claim cutoff || force
        then release_worker_claim_for_retry k
        else raise claim_active)

abbrev pub is_command_row : String → String → OutboxRow → Bool
is_command_row namespace k r =
    r.message.namespace == namespace
    && is_command r.message.payload
    && same_key r.message.key (text_key k)

abbrev pub may_requeue : OutboxStatus → Bool → Bool
may_requeue OutboxStatus.failed late = true
may_requeue OutboxStatus.in_progress late = late
may_requeue _ late = false

-- _requeue_worker_outbox: whether the command's row now waits
unfoldable pub requeue_worker_outbox : Env → String → String → Bool → Tx Bool
requeue_worker_outbox env namespace k force = do
  found ← reads (λ w. find_first (is_command_row namespace k) w.outbox)
  with_some found (pure false) (λ row. do
    cutoff ← stale_outbox_cutoff env
    if may_requeue row.status (force || ltb row.updated_at cutoff)
        then (do set_rows (λ r. eqb r.id row.id) OutboxStatus.pending; pure true)
        else pure (elim row.status [ OutboxStatus.pending ↦ true | _ ↦ false ]))

-- _clear_compensation_ingest_dedup
unfoldable pub clear_compensation_ingest_dedup : String → String → Action
clear_compensation_ingest_dedup t span = writes (λ w. record w {
  ingested =
      keep
        (λ k. not (
          same_key k (event_key t EventType.step_compensated span)
          || same_key k (event_key t EventType.compensation_failed span)))
        w.ingested;
})
