-- ===== src/Ledger/Ingest.antt =====
-- The relation Extends for the handlers of the ingest events and for process_saga_event.
use warden_core.Prelude.{ℕ, suc, ◌≤◌, String, Option, arith}
use warden_core.Json.{Json}
use warden_core.Model.{EventType, Step, Saga, Event, World, Env}
use warden_core.Tx.Keeps.{Keeps, Keeps-in_transaction}
use warden_core.Engine.Policy.{Gate, passed, denied, errored}
use warden_core.Engine.Chain.{Chain}
use warden_core.Engine.Failure.{fail_step, apply_step_failure_lifecycle}
use warden_core.Engine.Terminal.{emit_saga_failed_from_compensation}
use warden_core.Engine.Compensation.Walk.{advance_lifo_compensation}
use warden_core.Engine.Trigger.{Options, trigger_step}
use warden_core.Engine.Handlers.{
  notify_skipped_ingest, handle_saga_started, fail_reason_on_policy, stop_on_gate,
  stop_reason_on_policy, accept_step_output, handle_step_completed, approve_commit, approve_output,
  handle_hitl_approved, handle_human_rejected, retry_step, handle_human_retry, handle_step_failed,
  complete_undo, handle_compensation_completed, fail_undo_row, handle_compensation_failed, dispatch,
  handle_claimed, handle_event, ingest, process_saga_event, finish,
}
use warden_core.Ledger.Relation.{Extends, Extends-order}
use warden_core.Ledger.Primitives.{primitive_rules}
use warden_core.Ledger.Steps.{
  Extends-move_saga, Extends-enter_hitl_hold, Extends-resume, Extends-reset_step, Extends-clear,
  Extends-completion, Extends-emit_failed, Extends-walk, Extends-lifecycle, Extends-fail_step,
}
use warden_core.Ledger.Chains.{Extends-gate, Extends-checked, Extends-finish}
use warden_core.Ledger.Dispatch.{Extends-trigger, ChainExtends, chain-Extends}

pub Extends-skipped : (e : Event) (reason : String) → Keeps Extends (notify_skipped_ingest e reason)
unfolding notify_skipped_ingest
Extends-skipped e reason = search primitive_rules

module _ (env : Env) {c : Chain} (k : ChainExtends c) where
  Extends-complete_step :
      (t span : String) (output : Json) → Keeps Extends (finish env c t span output)
  Extends-complete_step = Extends-finish env k.wakes k.schedules

  Extends-fail :
      (t span code message : String) → Keeps Extends (fail_step env c.wake t span code message)
  Extends-fail = Extends-fail_step env k.wakes

  Extends-fail_raw :
      (t span : String) (raw : Json)
      → Keeps Extends (apply_step_failure_lifecycle env c.wake t span raw)
  Extends-fail_raw = Extends-lifecycle env k.wakes

  Extends-start : (saga : Saga) → Keeps Extends (handle_saga_started env c saga)
  unfolding handle_saga_started
  Extends-start saga =
      let next = k.schedules in search (primitive_rules, Extends-move_saga) depth 12

  Extends-fail_reason :
      (t span code message : String)
      → Keeps Extends (fail_reason_on_policy env c t span code message)
  unfolding fail_reason_on_policy
  Extends-fail_reason t span code message = search (primitive_rules, Extends-fail) depth 12

  Extends-stop_on_gate :
      (t : String) (step : Step) (g : Gate) → Keeps Extends (stop_on_gate env c t step g)
  Extends-stop_on_gate t step passed = search primitive_rules
  Extends-stop_on_gate t step denied = search (primitive_rules, Extends-fail_reason) depth 12
  Extends-stop_on_gate t step (errored named message) =
      search (primitive_rules, Extends-fail_reason) depth 12

  Extends-stop_reason :
      (saga : Saga) (step : Step) (output : Json)
      → Keeps Extends (stop_reason_on_policy env c saga step output)
  unfolding stop_reason_on_policy
  Extends-stop_reason saga step output =
      search (primitive_rules, Extends-gate, Extends-stop_on_gate) depth 12

  Extends-accept :
      (saga : Saga) (step : Step) (output : Json)
      → Keeps Extends (accept_step_output env c saga step output)
  unfolding accept_step_output
  Extends-accept saga step output =
      search (primitive_rules, Extends-stop_reason, Extends-enter_hitl_hold, Extends-complete_step)
        depth 12

  Extends-completed : (saga : Saga) (e : Event) → Keeps Extends (handle_step_completed env c saga e)
  unfolding handle_step_completed
  Extends-completed saga e =
      search (primitive_rules, Extends-accept, Extends-fail, Extends-skipped) depth 12

  Extends-approve_commit :
      (saga : Saga) (step : Step) (e : Event) → Keeps Extends (approve_commit env c saga step e)
  unfolding approve_commit
  Extends-approve_commit saga step e =
      search (primitive_rules, Extends-fail, Extends-checked, Extends-resume) depth 20

  Extends-approve_output :
      (saga : Saga) (step : Step) (e : Event) → Keeps Extends (approve_output env c saga step e)
  unfolding approve_output
  Extends-approve_output saga step e =
      search (primitive_rules, Extends-fail, Extends-complete_step) depth 12

  Extends-approved : (saga : Saga) (e : Event) → Keeps Extends (handle_hitl_approved env c saga e)
  unfolding handle_hitl_approved
  Extends-approved saga e =
      search (primitive_rules, Extends-approve_commit, Extends-approve_output) depth 12

  Extends-rejected : (saga : Saga) (e : Event) → Keeps Extends (handle_human_rejected env c saga e)
  unfolding handle_human_rejected
  Extends-rejected saga e = search (primitive_rules, Extends-fail_raw) depth 12

  Extends-trigger_step :
      (t : String) (n : ℕ) (o : Options)
      → Keeps Extends (trigger_step env c.wake c.schedule_next t n o)
  Extends-trigger_step = Extends-trigger env k.wakes k.schedules

  one_more : (n : ℕ) → n ≤ suc n
  one_more n = omega arith

  Extends-retry_step :
      (saga : Saga) (step : Step) (guidance : Option String)
      → Keeps Extends (retry_step env c saga step guidance)
  unfolding retry_step
  Extends-retry_step saga step guidance =
      search
        (
          primitive_rules, Extends-reset_step, Extends-clear, Extends-resume, Extends-trigger_step,
          one_more,
        )
        depth 20

  Extends-retry : (saga : Saga) (e : Event) → Keeps Extends (handle_human_retry env c saga e)
  unfolding handle_human_retry
  Extends-retry saga e = search (primitive_rules, Extends-retry_step) depth 12

  Extends-failed : (saga : Saga) (e : Event) → Keeps Extends (handle_step_failed env c saga e)
  unfolding handle_step_failed
  Extends-failed saga e = search (primitive_rules, Extends-fail_raw, Extends-skipped) depth 12

  Extends-walk_on : (t : String) (n : ℕ) → Keeps Extends (advance_lifo_compensation env c.wake t n)
  Extends-walk_on = Extends-walk env k.wakes

  Extends-complete_undo :
      (saga : Saga) (step : Step) (e : Event) → Keeps Extends (complete_undo env c saga step e)
  unfolding complete_undo
  Extends-complete_undo saga step e = search (primitive_rules, Extends-walk_on) depth 12

  Extends-undone :
      (saga : Saga) (e : Event) → Keeps Extends (handle_compensation_completed env c saga e)
  unfolding handle_compensation_completed
  Extends-undone saga e = search (primitive_rules, Extends-complete_undo, Extends-skipped) depth 12

  Extends-fail_undo_row :
      (step : Step) (given : Option Json) → Keeps Extends (fail_undo_row env c step given)
  Extends-fail_undo_row step given = search primitive_rules depth 12

  Extends-emit_saga_failed :
      (t reason : String) (span : Option String) (given : Option Json)
      → Keeps Extends (emit_saga_failed_from_compensation env c.wake t reason span given)
  Extends-emit_saga_failed = Extends-emit_failed env k.wakes

  Extends-undo_failed :
      (saga : Saga) (e : Event) → Keeps Extends (handle_compensation_failed env c saga e)
  unfolding handle_compensation_failed
  Extends-undo_failed saga e =
      search (primitive_rules, Extends-fail_undo_row, Extends-emit_saga_failed) depth 12

  Extends-dispatch :
      (x : EventType) (saga : Saga) (e : Event) → Keeps Extends (dispatch env c x saga e)
  unfolding dispatch
  Extends-dispatch EventType.saga_started saga e = Extends-start saga
  Extends-dispatch EventType.step_completed saga e = Extends-completed saga e
  Extends-dispatch EventType.step_failed saga e = Extends-failed saga e
  Extends-dispatch EventType.step_compensated saga e = Extends-undone saga e
  Extends-dispatch EventType.saga_completed saga e = Extends-completion env k.wakes saga.trace_id
  Extends-dispatch EventType.saga_compensated saga e = search primitive_rules
  Extends-dispatch EventType.saga_failed saga e = search primitive_rules
  Extends-dispatch EventType.compensation_failed saga e = Extends-undo_failed saga e
  Extends-dispatch EventType.human_approved saga e = Extends-approved saga e
  Extends-dispatch EventType.human_rejected saga e = Extends-rejected saga e
  Extends-dispatch EventType.human_retry saga e = Extends-retry saga e

  pub Extends-after_claim : (e : Event) → Keeps Extends (handle_claimed env c e)
  unfolding handle_claimed
  Extends-after_claim e = search (primitive_rules, Extends-dispatch) depth 12

  Extends-handle_event : (e : Event) → Keeps Extends (handle_event env c e)
  unfolding handle_event
  Extends-handle_event e = search (primitive_rules, Extends-after_claim)

  pub Extends-ingest : (e : Event) → Keeps Extends (ingest env c e)
  unfolding ingest
  Extends-ingest e = search (primitive_rules, Extends-handle_event, Extends-skipped) depth 12

-- Processing an ingest event, at every fuel and whether it returns or raises, extends the tables:
-- each step row and each saga row is still found under its id, with its identity, its frozen spec
-- and its place in the order unchanged and its retry count no smaller; each worker command in the
-- outbox is still there; each claimed dedup key, but those of a worker's two results, is still
-- claimed; and if no two outbox rows shared their namespace, topic and key, none do afterwards.
pub process_saga_event-Extends :
    (env : Env) (fuel : ℕ) (e : Event) (w : World) → Extends w (process_saga_event env fuel e w).1
unfolding process_saga_event
process_saga_event-Extends env fuel e w =
    (Keeps-in_transaction Extends-order _ (Extends-ingest env (chain-Extends env fuel) e)).at w
