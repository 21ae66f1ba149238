-- ===== src/Safeguards/Kept.antt =====
-- The relation Extends (Ledger/Relation) for recovery requests.
use warden_core.Prelude.{ℕ, zero, suc, String, Bool, Option}
use warden_core.Model.{StepKind, StepStatus, Saga, Step, Response, Env}
use warden_core.Tx.{Tx}
use warden_core.Tx.Keeps.{Keeps}
use warden_core.Engine.Chain.{Chain, chain}
use warden_core.Recovery.Retry.{
  retry_native, retry_requeued, retry_rescheduled, retry_released, unless_claim_active,
  execute_step_retry, execute_retry_forward, retry_forward, assert_awaiting_recovery_forward,
  enqueue_step_retry, enqueue_retry_forward, trigger, closing,
}
use warden_core.Recovery.Compensate.{
  start_walk, execute_start_compensation, enqueue_start_compensation,
}
use warden_core.Ledger.Relation.{Extends}
use warden_core.Ledger.Primitives.{primitive_rules}
use warden_core.Ledger.Steps.{Extends-clear, Extends-move_saga, Extends-walk, Extends-no_window}
use warden_core.Ledger.Chains.{Extends-finish}
use warden_core.Ledger.Dispatch.{Extends-trigger, Extends-try_join, ChainExtends, chain-Extends}
use warden_core.Safeguards.Parts.{
  Extends-idempotency, Extends-token, Extends-demand, Extends-load, Extends-gating, Extends-active,
  Extends-requeue, Extends-reset,
}

module _ (env : Env) {c : Chain} (ce : ChainExtends c) where
  Extends-retrigger :
      (t : String) (step : Step) (from : Option StepStatus)
      → Keeps Extends (trigger env c t step from)
  Extends-retrigger t step from = Extends-trigger env ce.wakes ce.schedules t _ _

  Extends-closing :
      (span kind prior k status token : String)
      → Keeps Extends (closing env c span kind prior k status token)
  Extends-closing span kind prior k status token = search primitive_rules

  Extends-native_retry :
      (k : StepKind) (t : String) (step : Step) (token : String)
      → Keeps Extends (retry_native env c k t step token)
  Extends-native_retry StepKind.join_sagas t step token =
      let joins = Extends-try_join env ce.wakes (Extends-finish env ce.wakes ce.schedules) in
      search (primitive_rules, joins, Extends-closing) depth 12
  Extends-native_retry StepKind.spawn_sagas t step token =
      search (primitive_rules, Extends-retrigger, Extends-closing) depth 12
  Extends-native_retry StepKind.reason t step token = search primitive_rules
  Extends-native_retry StepKind.commit t step token = search primitive_rules
  Extends-native_retry StepKind.other t step token = search primitive_rules

  Extends-requeued :
      (namespace t : String) (step : Step) (token : String)
      → Keeps Extends (retry_requeued env c namespace t step token)
  unfolding retry_requeued
  Extends-requeued namespace t step token =
      search (primitive_rules, Extends-clear, Extends-closing) depth 16

  Extends-rescheduled :
      (t : String) (step : Step) (token : String)
      → Keeps Extends (retry_rescheduled env c t step token)
  unfolding retry_rescheduled
  Extends-rescheduled t step token =
      search (primitive_rules, Extends-reset, Extends-retrigger, Extends-closing) depth 12

  Extends-released :
      (namespace t : String) (step : Step) (token : String) (force : Bool)
      → Keeps Extends (retry_released env c namespace t step token force)
  unfolding retry_released
  Extends-released namespace t step token force =
      search (primitive_rules, Extends-requeue, Extends-requeued, Extends-rescheduled) depth 12

  Extends-unless :
      (step : Step) (token : String) (force : Bool) (rest : Tx Response)
      → Keeps Extends rest
      → Keeps Extends (unless_claim_active env c step token force rest)
  unfolding unless_claim_active
  Extends-unless step token force rest k = search (primitive_rules, Extends-active) depth 12

  Extends-step_retry :
      (namespace t span token : String) (force allow : Bool)
      → Keeps Extends (execute_step_retry env c namespace t span token force allow)
  unfolding execute_step_retry
  Extends-step_retry namespace t span token force allow =
      search
        (
          primitive_rules, Extends-load, Extends-demand, Extends-native_retry, Extends-gating,
          Extends-unless, Extends-released,
        )
        depth 16

  Extends-awaiting :
      (saga : Saga) (step : Step) → Keeps Extends (assert_awaiting_recovery_forward env c saga step)
  unfolding assert_awaiting_recovery_forward
  Extends-awaiting saga step = search (primitive_rules, Extends-demand) depth 12

  Extends-retry_forward :
      (t : String) (step : Step) (token : String) → Keeps Extends (retry_forward env c t step token)
  unfolding retry_forward
  Extends-retry_forward t step token =
      search (primitive_rules, Extends-reset, Extends-move_saga, Extends-retrigger, Extends-closing)
        depth 16

  Extends-forward_retry :
      (namespace t span token : String) (force allow : Bool)
      → Keeps Extends (execute_retry_forward env c namespace t span token force allow)
  unfolding execute_retry_forward
  Extends-forward_retry namespace t span token force allow =
      search
        (
          primitive_rules, Extends-load, Extends-demand, Extends-awaiting, Extends-gating,
          Extends-unless, Extends-retry_forward,
        )
        depth 16

  Extends-start_walk :
      (t : String) (step : Step) (token : String) (n : ℕ)
      → Keeps Extends (start_walk env c t step token n)
  unfolding start_walk
  Extends-start_walk t step token zero =
      let fails = Extends-no_window env ce.wakes in search (primitive_rules, fails) depth 12
  Extends-start_walk t step token (suc n) =
      let walks = Extends-walk env ce.wakes in
      search (primitive_rules, Extends-move_saga, walks) depth 12

  Extends-start_compensation :
      (namespace t span token : String)
      → Keeps Extends (execute_start_compensation env c namespace t span token)
  unfolding execute_start_compensation
  Extends-start_compensation namespace t span token =
      search (primitive_rules, Extends-load, Extends-awaiting, Extends-start_walk) depth 16

-- The three requests that put a forward step or its saga back to work, with their tokens.
pub data Recoverer : Type 0 where
  step_retry retry_parked : (force allow : Bool) → Recoverer
  start_compensation : (force : Bool) → Recoverer

abbrev pub recover :
    Env → Chain → Recoverer → String → String → String → Option String → Tx Response
recover env c (Recoverer.step_retry force allow) namespace t span token =
    enqueue_step_retry env c namespace t span token force allow
recover env c (Recoverer.retry_parked force allow) namespace t span token =
    enqueue_retry_forward env c namespace t span token force allow
recover env c (Recoverer.start_compensation force) namespace t span token =
    enqueue_start_compensation env c namespace t span token force

-- A retry of a running step, a retry of a parked step, or a start of compensation, with a client's
-- token or not, keeps each step and saga row under its id, with its identity, its frozen spec and
-- its place in the order, keeps each queued worker command and each claimed dedup key but those of
-- a worker's two results, and keeps the outbox rows apart if they were.
pub recover-Extends :
    (env : Env) (fuel : ℕ) (r : Recoverer) (namespace t span : String) (token : Option String)
    → Keeps Extends (recover env (chain env fuel) r namespace t span token)
unfolding enqueue_step_retry enqueue_retry_forward enqueue_start_compensation
recover-Extends env fuel (Recoverer.step_retry force allow) namespace t span token =
    let runs = Extends-step_retry env (chain-Extends env fuel) in
    search (primitive_rules, Extends-token, Extends-idempotency, runs) depth 12
recover-Extends env fuel (Recoverer.retry_parked force allow) namespace t span token =
    let runs = Extends-forward_retry env (chain-Extends env fuel) in
    search (primitive_rules, Extends-token, Extends-idempotency, runs) depth 12
recover-Extends env fuel (Recoverer.start_compensation force) namespace t span token =
    let runs = Extends-start_compensation env (chain-Extends env fuel) in
    search (primitive_rules, Extends-token, Extends-idempotency, runs) depth 12
