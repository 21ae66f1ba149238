-- ===== src/Engine/Trigger.antt =====
-- engine/logic.py: trigger_step and _schedule_next_forward_step. `wake`, `schedule_next` and `finish`
-- are `on_child_saga_terminal`, `_schedule_next_forward_step` and
-- `_finalize_step_output_and_advance`.
use warden_core.Prelude.{
  ℕ, suc, String, Bool, true, false, not, ◌&&◌, ◌||◌, Option, none, some, List, [], ◌∷◌, ◌==◌, leb,
  ltb, if◌then◌else◌, get_or, keep,
}
use warden_core.Json.{Json}
use warden_core.Text.{stripped}
use warden_core.Model.{
  StepStatus, StepKind, Step, Saga, text_key, Payload, step_scheduled, step_started,
  step_transition, steps_skipped_summary, World, Env, Verdict, holds, fails, is_engine_native_kind,
}
use warden_core.Tx.{
  Tx, Action, value_error, pure, raise, reads, ◌>>=◌, ◌>>◌, when, with_some, skip,
  catch_value_error,
}
use warden_core.Store.{
  get_saga, get_step, save_saga, save_step, hook, now, emit, forward_at, is_forward,
}
use warden_core.Engine.Terminal.{handle_saga_completion}
use warden_core.Engine.Compensation.{step_context_entry_for_saga}
use warden_core.Engine.Failure.{fail_step}
use warden_core.Engine.Policy.{evaluate_step_when}
use warden_core.Engine.Command.{prepare_worker_command}
use warden_core.Engine.Advance.{
  with_step_entry, handle_possible_loop_boundary, finalize_step_output_and_advance,
}
use warden_core.Engine.Join.{execute_spawn_sagas, park_or_complete_join}

-- The options of trigger_step.
pub record Options : Type 0 where
  pub start_from : Option StepStatus
  pub from_awaiting_human : Bool
  pub retry_in_progress : Bool
  pub guidance : Option String

abbrev pub plain : Options
plain = record {
  start_from = none;
  from_awaiting_human = false;
  retry_in_progress = false;
  guidance = none;
}

-- The statuses at which trigger_step returns without effect.
abbrev pub is_blocked : Options → StepStatus → Bool
is_blocked o StepStatus.completed = true
is_blocked o StepStatus.in_progress = not (o.from_awaiting_human || o.retry_in_progress)
is_blocked o StepStatus.awaiting_human = not o.from_awaiting_human
is_blocked o _ = false

-- `select_for_update().order_by("forward_seq")` over the rows from one `forward_seq` on
abbrev pub insert_by_seq : Step → List Step → List Step
insert_by_seq r [] = r ∷ []
insert_by_seq r (q ∷ qs) =
    if leb r.forward_seq q.forward_seq then r ∷ q ∷ qs else q ∷ insert_by_seq r qs

abbrev pub sort_by_seq : List Step → List Step
sort_by_seq [] = []
sort_by_seq (r ∷ rs) = insert_by_seq r (sort_by_seq rs)

unfoldable pub candidates : String → ℕ → World → List Step
candidates t n w =
    sort_by_seq (keep (λ r. is_forward r && r.saga_trace_id == t && leb n r.forward_seq) w.steps)

module _ (env : Env) (wake : String → Action) (schedule_next : String → ℕ → Action) where
  abbrev pub finish : String → String → Json → Action
  finish = finalize_step_output_and_advance env wake schedule_next

  -- the engine-native branch of trigger_step
  abbrev pub run_native_kind : StepKind → String → Step → Action
  run_native_kind StepKind.spawn_sagas t step = execute_spawn_sagas env wake finish t step
  run_native_kind StepKind.join_sagas t step = park_or_complete_join env wake finish t step
  run_native_kind _ t step = raise (value_error "Unsupported engine-native kind")

  unfoldable pub run_engine_native : String → Step → Action
  run_engine_native t step = run_native_kind step.spec.step_kind t step

  -- the `try` block of trigger_step
  unfoldable pub dispatch_step : String → Step → StepStatus → Options → Tx (Option Payload)
  dispatch_step t step schedule_from o =
      if is_engine_native_kind step.spec.step_kind
      then (do hook (step_started step.span_id schedule_from); run_engine_native t step; pure none)
      else prepare_worker_command env wake t step o.guidance

  -- its `except` clause
  abbrev pub dispatch_failed : String → Step → String → Tx (Option Payload)
  dispatch_failed t step message = do
    fail_step env wake t step.span_id "VALIDATION_ERROR" message
    pure none

  -- what follows the `try`
  unfoldable pub queue_command : Saga → Step → StepStatus → Payload → Action
  queue_command saga step schedule_from command = do
    emit env (record {
      namespace = saga.namespace;
      saga_trace_id = saga.trace_id;
      step_span_id = step.span_id;
      key = text_key step.idempotency_key;
      payload = command;
    })
    hook (step_scheduled step.span_id)
    hook (step_started step.span_id schedule_from)

  -- trigger_step, behind its early returns
  unfoldable pub start_step : String → Step → Options → Action
  start_step t step o = do
    let schedule_from = get_or o.start_from step.status
    save_step step.span_id (λ r. record r { status = StepStatus.in_progress })
    started ← get_step step.span_id
    built ← catch_value_error (dispatch_step t started schedule_from o) (dispatch_failed t started)
    saga ← get_saga t
    with_some built skip (queue_command saga started schedule_from)

  -- trigger_step
  unfoldable pub trigger_step : String → ℕ → Options → Action
  trigger_step t seq o = do
    found ← reads (forward_at t seq)
    with_some found skip (λ step. if is_blocked o step.status then skip else start_step t step o)

  -- _mark_step_skipped_when_false
  unfoldable pub mark_step_skipped_when_false : String → Step → Action
  mark_step_skipped_when_false t step = do
    ended ← now
    save_step step.span_id (λ r. record r { status = StepStatus.skipped; end_time = some ended })
    with_some step.loop_id skip (λ _. do
      saga ← get_saga t
      save_saga t (λ s. record s {
        context = with_step_entry saga step.spec.step_id (step_context_entry_for_saga none);
      }))
    hook (step_transition step.span_id step.status StepStatus.skipped "when_false")

  -- _notify_when_skipped_summary
  unfoldable pub notify_when_skipped_summary : String → ℕ → Action
  notify_when_skipped_summary t n = when (ltb 0 n) (hook (steps_skipped_summary t n "when_false"))

  -- A candidate that is to run.
  abbrev pub run_candidate : String → Step → ℕ → Action
  run_candidate t step skipped = do
    notify_when_skipped_summary t skipped
    trigger_step t step.forward_seq plain

  -- A candidate whose `when.cel` is false; `rest` goes on with the next candidate.
  abbrev pub skip_candidate : String → Step → ℕ → Action → Action
  skip_candidate t step skipped rest = do
    mark_step_skipped_when_false t step
    handled ← handle_possible_loop_boundary env wake schedule_next t step
    if handled then notify_when_skipped_summary t (suc skipped) else rest

  abbrev pub after_when : String → Step → ℕ → Action → Verdict → Action
  after_when t step skipped rest (fails message) =
      fail_step env wake t step.span_id "WHEN_EVALUATION_FAILED" message
  after_when t step skipped rest (holds true) = run_candidate t step skipped
  after_when t step skipped rest (holds false) = skip_candidate t step skipped rest

  -- One candidate of the loop of _schedule_next_forward_step.
  unfoldable pub consider : String → Step → ℕ → Action → Action
  consider t step skipped rest =
      with_some (stripped step.spec.when_cel) (run_candidate t step skipped) λ source. do
        saga ← get_saga t
        after_when t step skipped rest (evaluate_step_when env source saga step)

  -- the loop, and the completion of the saga when no candidate is left
  unfoldable pub schedule_from : String → List Step → ℕ → Action
  schedule_from t [] skipped = do
    notify_when_skipped_summary t skipped
    handle_saga_completion env wake t
  schedule_from t (step ∷ rest) skipped =
      consider t step skipped (schedule_from t rest (suc skipped))

  -- _schedule_next_forward_step
  unfoldable pub schedule_next_forward_step : String → ℕ → Action
  schedule_next_forward_step t n = do found ← reads (candidates t n); schedule_from t found 0
