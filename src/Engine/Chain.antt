-- ===== src/Engine/Chain.antt =====
-- The knot of the engine's mutual calls: scheduling a step can complete it at once (a join whose
-- children have all ended, a spawn, the end of a loop body) and so schedule the next one, and the
-- end of a saga can complete a join of its parent. `Chain` holds the two callbacks; fuel bounds how
-- deep they nest, and running out raises `out_of_fuel`, which nothing catches.
use warden_core.Prelude.{
  ℕ, zero, suc, String, Bool, ◌&&◌, Option, none, some, List, [], ◌∷◌, ◌==◌, ltb, if◌then◌else◌,
  find_first,
}
use warden_core.Model.{Step, Saga, Env, is_in_progress, is_join, is_spawn, saga_is_compensating}
use warden_core.Tx.{Action, out_of_fuel, raise, reads, ◌>>=◌, ◌>>◌, when, with_some, skip}
use warden_core.Store.{get_saga, saga_of, is_forward}
use warden_core.Engine.Compensation.{forward_eligible_for_compensation}
use warden_core.Engine.Compensation.Walk.{
  undo_done, compensate_spawn_sagas_forward, advance_lifo_compensation,
}
use warden_core.Engine.Advance.{finalize_step_output_and_advance}
use warden_core.Engine.Join.{try_complete_join}
use warden_core.Engine.Trigger.{schedule_next_forward_step}

abbrev is_parked_join : String → Step → Bool
is_parked_join t r =
    is_forward r && r.saga_trace_id == t && is_join r.spec.step_kind && is_in_progress r.status

abbrev later_spawn : Option Step → Step → Option Step
later_spawn none r = some r
later_spawn (some q) r = if ltb q.forward_seq r.forward_seq then some r else some q

-- The last spawn row of a saga that may have had effects.
unfoldable pub last_spawn : String → List Step → Option Step
unfolding forward_eligible_for_compensation
last_spawn t [] = none
last_spawn t (r ∷ rs) =
    let rest = last_spawn t rs in
    if is_forward r
      && r.saga_trace_id == t
      && is_spawn r.spec.step_kind
      && forward_eligible_for_compensation r
    then later_spawn rest r
    else rest

module _ (env : Env) (wake : String → Action) (schedule_next : String → ℕ → Action) where
  -- maybe_resume_spawn_compensation, behind its test of the saga's status
  unfoldable pub maybe_resume_spawn_compensation : String → Action
  maybe_resume_spawn_compensation t = do
    found ← reads (λ w. last_spawn t w.steps)
    with_some found skip λ forward. do
      already ← reads (undo_done t forward.span_id)
      if already
          then skip
          else compensate_spawn_sagas_forward env wake t forward
              (advance_lifo_compensation env wake t forward.forward_seq)

  -- on_child_saga_terminal, with the parent at hand
  unfoldable pub wake_parent : Saga → Action
  wake_parent parent = do
    let t = parent.trace_id
    parked ← reads (λ w. find_first (is_parked_join t) w.steps)
    with_some parked skip λ step. do
      _ ←
          try_complete_join env wake (finalize_step_output_and_advance env wake schedule_next) t
            step
      skip
    after ← get_saga t
    when (saga_is_compensating after.status) (maybe_resume_spawn_compensation t)

  -- on_child_saga_terminal
  unfoldable pub on_child_saga_terminal : String → Action
  on_child_saga_terminal child_trace = do
    child ← get_saga child_trace
    with_some child.parent_trace_id skip
        λ parent_trace. do found ← reads (saga_of parent_trace); with_some found skip wake_parent

pub record Chain : Type 0 where
  pub wake : String → Action
  pub schedule_next : String → ℕ → Action

unfoldable pub chain : Env → ℕ → Chain
chain env zero = record { wake = λ t. raise out_of_fuel; schedule_next = λ t n. raise out_of_fuel }
chain env (suc fuel) =
    let c = chain env fuel in
    record {
      wake = on_child_saga_terminal env c.wake c.schedule_next;
      schedule_next = schedule_next_forward_step env c.wake c.schedule_next;
    }
