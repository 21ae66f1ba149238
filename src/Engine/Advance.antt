-- ===== src/Engine/Advance.antt =====
-- engine/logic.py and engine/loop_control.py: what follows a step that has ended well. `wake` is
-- `on_child_saga_terminal`, `schedule_next t n` is `_schedule_next_forward_step(after_seq=n - 1)`.
use warden_core.Prelude.{
  ℕ, suc, String, Bool, true, false, ◌&&◌, Option, none, some, List, [], ◌∷◌, ◌==◌, leb,
  if◌then◌else◌, get_or,
}
use warden_core.Json.{Json, obj, end, field, get_key, set_key, truthy, dict_or_empty, empty_dict}
use warden_core.Model.{
  StepStatus, SagaStatus, Step, Saga, LoopSpec, step_transition, Env, Verdict, holds, fails,
}
use warden_core.Tx.{Tx, Action, pure, reads, ◌>>=◌, ◌>>◌, with_some, skip}
use warden_core.Store.{get_saga, get_step, save_saga, save_step, hook, now, is_forward}
use warden_core.Engine.Terminal.{move_saga}
use warden_core.Engine.Compensation.{step_output_for_saga_context, step_context_entry_for_saga}
use warden_core.Engine.Compensation.Walk.{advance_lifo_compensation}
use warden_core.Engine.Failure.{details}
use warden_core.Engine.Hold.{resume_saga_running_from_hitl}
use warden_core.Engine.Policy.{until_binding}
use warden_core.Engine.Blueprint.{
  Minted, take_next_materialization_segment, mint_loop_iteration_body, loop_definition,
  is_last_body_step, set_loop_context_status, materialize_executable_steps,
}

abbrev above : ℕ → ℕ → ℕ
above n m = if leb m n then suc n else m

-- `_max_forward_seq + 1`: the first unused `forward_seq` of a saga
unfoldable pub next_forward_seq : String → List Step → ℕ
next_forward_seq t [] = 0
next_forward_seq t (r ∷ rs) =
    let rest = next_forward_seq t rs in
    if is_forward r && r.saga_trace_id == t then above r.forward_seq rest else rest

-- `context.steps[step_id] = entry`, over `dict(saga.context)` or the empty shells
abbrev pub context_of : Saga → Json
context_of saga =
    if truthy saga.context
    then saga.context
    else obj (field "input" empty_dict (field "steps" empty_dict end))

-- The assignment to `current_context["steps"]`. Python raises where `steps` is no dict, which only the
-- engine itself writes; the model starts from an empty one there.
unfoldable pub with_step_entry : Saga → String → Json → Json
with_step_entry saga step_id entry =
    set_key "steps" (set_key step_id entry (dict_or_empty (get_key "steps" (context_of saga))))
      (context_of saga)

module _ (env : Env) (wake : String → Action) (schedule_next : String → ℕ → Action) where
  -- _mint_and_schedule
  unfoldable pub mint_and_schedule : String → List Minted → Action
  mint_and_schedule t specs = do
    saga ← get_saga t
    first ← reads (λ w. next_forward_seq t w.steps)
    materialize_executable_steps env saga specs first
    schedule_next t first

  -- _fail_saga_after_successful_body
  unfoldable pub fail_saga_after_successful_body : String → Step → String → Json → Action
  fail_saga_after_successful_body t step code error_details = do
    move_saga t SagaStatus.compensating code
    save_step step.span_id (λ r. record r {
      error_details = some (elim r.error_details [
        | none ↦ error_details
        | some d ↦ if truthy d then d else error_details
      ]);
    })
    advance_lifo_compensation env wake t (suc step.forward_seq)

  -- the end of _exit_loop: the next segment of the blueprint, if there is one
  abbrev pub enter_segment : String → Step → Json → Option String → List Minted → Action
  enter_segment t step ctx active_loop [] = schedule_next t (suc step.forward_seq)
  enter_segment t step ctx active_loop (m ∷ ms) = do
    with_some active_loop skip (λ active.
        save_saga t
          (λ s. record s { context = set_loop_context_status ctx active 1 "running" none }))
    mint_and_schedule t (m ∷ ms)

  -- _exit_loop
  unfoldable pub exit_loop : String → Step → LoopSpec → ℕ → Action
  exit_loop t step l iteration = do
    saga ← get_saga t
    let ctx =
        set_loop_context_status (context_of saga) l.loop_id iteration "exited"
          (some l.max_iterations)
    let (segment, state) =
        take_next_materialization_segment saga.frozen_steps saga.loop_state.next_blueprint_index
    save_saga t (λ s. record s { context = ctx; loop_state = state })
    enter_segment t step ctx state.active_loop_id segment

  -- _continue_loop
  unfoldable pub continue_loop : String → LoopSpec → ℕ → Action
  continue_loop t l next_iteration = do
    saga ← get_saga t
    save_saga t (λ s. record s {
      context =
          set_loop_context_status (context_of saga) l.loop_id next_iteration "running"
            (some l.max_iterations);
    })
    mint_and_schedule t (mint_loop_iteration_body l next_iteration)

  -- A loop that ends the saga: the context says so, and the rows are undone with the last one.
  unfoldable pub exhaust_loop : String → Step → LoopSpec → ℕ → String → String → Action
  exhaust_loop t step l iteration code message = do
    saga ← get_saga t
    save_saga t (λ s. record s {
      context =
          set_loop_context_status (context_of saga) l.loop_id iteration "exhausted"
            (some l.max_iterations);
    })
    fail_saga_after_successful_body t step code (details code message)

  -- the branches of handle_possible_loop_boundary, once `until.cel` has been evaluated
  abbrev pub after_body : String → Step → LoopSpec → ℕ → Verdict → Action
  after_body t step l iteration (fails message) =
      exhaust_loop t step l iteration "UNTIL_EVALUATION_FAILED" message
  after_body t step l iteration (holds true) = exit_loop t step l iteration
  after_body t step l iteration (holds false) =
      if leb l.max_iterations iteration
      then exhaust_loop t step l iteration "LOOP_EXHAUSTED"
          "Loop reached max_iterations without until.cel becoming true"
      else continue_loop t l (suc iteration)

  unfoldable pub end_loop_body : String → Step → LoopSpec → Tx Bool
  end_loop_body t step l = do
    saga ← get_saga t
    let iteration = get_or step.iteration 1
    after_body t step l iteration
        (env.eval_cel l.until_cel (until_binding saga l.loop_id iteration l.max_iterations))
    pure true

  -- handle_possible_loop_boundary: whether it took over the scheduling
  unfoldable pub handle_possible_loop_boundary : String → Step → Tx Bool
  handle_possible_loop_boundary t step = with_some step.loop_id (pure false) λ loop_id. do
    saga ← get_saga t
    with_some (loop_definition loop_id saga.loop_definitions) (pure false)
        (λ l. if is_last_body_step step l then end_loop_body t step l else pure false)

  -- _finalize_step_output_and_advance
  unfoldable pub finalize_step_output_and_advance : String → String → Json → Action
  finalize_step_output_and_advance t span output = do
    before ← get_step span
    ended ← now
    save_step span (λ r. record r {
      status = StepStatus.completed;
      output_payload = some (step_output_for_saga_context (some output));
      pending_review_payload = none;
      end_time = some ended;
    })
    hook (step_transition span before.status StepStatus.completed "")
    saga ← get_saga t
    save_saga t (λ s. record s {
      context =
          with_step_entry saga before.spec.step_id (step_context_entry_for_saga (some output));
    })
    resume_saga_running_from_hitl t "step_completed_after_hitl"
    step ← get_step span
    handled ← handle_possible_loop_boundary t step
    if handled then pure tt else schedule_next t (suc step.forward_seq)
