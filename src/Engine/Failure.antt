-- ===== src/Engine/Failure.antt =====
-- engine/logic.py: _apply_step_failure_lifecycle and the tests for timeouts that it makes.
use warden_core.Prelude.{
  ℕ, zero, suc, String, Bool, true, false, ◌&&◌, ◌||◌, Option, none, some, List, [], ◌∷◌, ◌==◌, eqb,
  if◌then◌else◌, get_or, or_else,
}
use warden_core.Json.{
  Json, Items, Fields, null, num, number, str, arr, obj, nil, cons, end, field, get_key, is_dict,
  truthy, empty_dict,
}
use warden_core.Text.{codes, strip, upper, lower, contains}
use warden_core.Model.{
  StepStatus, SagaStatus, Step, step_transition, Env, is_timed_out, is_await_operator,
}
use warden_core.Tx.{Action, ◌>>=◌, ◌>>◌}
use warden_core.Store.{get_step, save_step, hook, now}
use warden_core.Engine.Terminal.{move_saga, fail_saga_no_compensation_window}
use warden_core.Engine.Compensation.{crashed}
use warden_core.Engine.Compensation.Walk.{advance_lifo_compensation}

abbrev pub details : String → String → Json
details code message = obj (field "code" (str code) (field "message" (str message) end))

-- Whether a word that has capital letters only occurs in `str(value).upper()`.
mutual
  says : List ℕ → Json → Bool
  says word (str s) = contains word (upper (codes s))
  says word (number s) = contains word (upper (codes s))
  says word (arr xs) = says_items word xs
  says word (obj fs) = says_fields word fs
  says word _ = false

  says_items : List ℕ → Items → Bool
  says_items word nil = false
  says_items word (cons x xs) = says word x || says_items word xs

  says_fields : List ℕ → Fields → Bool
  says_fields word end = false
  says_fields word (field k v fs) =
      contains word (upper (codes k)) || says word v || says_fields word fs

is_408 : Json → Bool
is_408 (num n) = eqb n 408
is_408 (str s) = strip s == "408"
is_408 _ = false

-- _error_code_indicates_timeout. Of _TIMEOUT_ERROR_CODES only "408" holds neither of the two words.
unfoldable pub error_code_indicates_timeout : Option Json → Bool
unfolding says is_408 contains upper strip
error_code_indicates_timeout none = false
error_code_indicates_timeout (some null) = false
error_code_indicates_timeout (some code) =
    is_408 code || says (codes "TIMEOUT") code || says (codes "DEADLINE") code

-- _error_text_indicates_timeout
unfoldable pub error_text_indicates_timeout : Option Json → Bool
unfolding contains lower
error_text_indicates_timeout (some (str s)) =
    contains (codes "timeout") (lower (codes s)) || contains (codes "deadline") (lower (codes s))
error_text_indicates_timeout _ = false

same_text : List ℕ → List ℕ → Bool
same_text [] [] = true
same_text (a ∷ l) (b ∷ m) = eqb a b && same_text l m
same_text _ _ = false

is_execution_timeout : Option Json → Bool
unfolding lower strip same_text
is_execution_timeout (some (str s)) =
    same_text (lower (codes (strip s))) (codes "execution_timeout")
is_execution_timeout _ = false

-- _payload_indicates_timeout
unfoldable pub payload_indicates_timeout : Json → Bool
unfolding error_code_indicates_timeout error_text_indicates_timeout is_execution_timeout
payload_indicates_timeout raw_payload =
    is_dict raw_payload
    && (error_code_indicates_timeout (get_key "code" raw_payload)
        || is_execution_timeout (get_key "reason" raw_payload)
        || error_text_indicates_timeout (get_key "message" raw_payload)
        || error_text_indicates_timeout (get_key "error" raw_payload))

-- _step_failure_payload
abbrev pub dict_of : Option Json → Option Json
dict_of none = none
dict_of (some j) = if is_dict j then some j else none

unfoldable pub step_failure_payload : Option Json → Option Json → Json
step_failure_payload error_details output =
    get_or (or_else (dict_of error_details) (dict_of output)) empty_dict

-- What the failure makes of the step: a row that the reaper timed out stays so.
abbrev pub failed_status : StepStatus → Json → StepStatus
failed_status StepStatus.timed_out raw = StepStatus.timed_out
failed_status s raw =
    if payload_indicates_timeout raw then StepStatus.timed_out else StepStatus.failed

abbrev pub failed_from : StepStatus → StepStatus
failed_from StepStatus.timed_out = StepStatus.in_progress
failed_from s = s

abbrev kept_details : Option Json → Json → Option Json
kept_details none raw = some raw
kept_details (some d) raw = if truthy d then some d else some raw

-- The cursor of the walk: a dirty failure undoes the failed row too.
abbrev pub undo_window : StepStatus → Json → ℕ → ℕ
undo_window status raw seq = if is_timed_out status || crashed raw then suc seq else seq

module _ (env : Env) (wake : String → Action) where
  -- the part of the lifecycle behind the await_operator branch
  unfoldable pub compensate_from : String → Step → Json → ℕ → Action
  compensate_from t step raw zero = fail_saga_no_compensation_window env wake t step raw
  compensate_from t step raw (suc seq) = do
    move_saga t SagaStatus.compensating ""
    advance_lifo_compensation env wake t (suc seq)

  -- _apply_step_failure_lifecycle
  unfoldable pub apply_step_failure_lifecycle : String → String → Json → Action
  apply_step_failure_lifecycle t span raw_payload = do
    step ← get_step span
    ended ← now
    let status = failed_status step.status raw_payload
    save_step span (λ r. record r {
      status = status;
      error_details = kept_details r.error_details raw_payload;
      end_time = or_else r.end_time (some ended);
    })
    hook (step_transition span (failed_from step.status) status "")
    if is_await_operator step.spec.on_failure_strategy
        then move_saga t SagaStatus.awaiting_recovery "await_operator"
        else compensate_from t step raw_payload (undo_window status raw_payload step.forward_seq)

  -- The StepFailedEvent that the engine makes up for a step of its own, put through the lifecycle.
  unfoldable pub fail_step : String → String → String → String → Action
  fail_step t span code message = apply_step_failure_lifecycle t span (details code message)
