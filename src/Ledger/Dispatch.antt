-- ===== src/Ledger/Dispatch.antt =====
-- The relation Extends for spawning, joining and triggering steps (Engine/Join, Engine/Trigger),
-- and for the two callbacks of Engine/Chain.
use warden_core.Prelude.{ℕ, zero, suc, String, List, [], ◌∷◌, true, false}
use warden_core.Json.{Json}
use warden_core.Model.{
  SpawnSpec, JoinSpec, StepStatus, StepKind, Step, Saga, Env, Verdict, holds, fails, Payload,
}
use warden_core.Tx.{Action, Outcome, done, raised, in_transaction}
use warden_core.Tx.Keeps.{Keeps, Keeps-in_transaction}
use warden_core.Engine.Join.{
  Spawnable, valid, invalid, Summary, spawn_one_child, spawn_children, after_spawn, run_spawn,
  spawn_validated, execute_spawn_sagas, close_join, complete_join, try_complete_join,
  park_or_complete_join,
}
use warden_core.Engine.Trigger.{
  Options, run_native_kind, run_engine_native, dispatch_step, queue_command, start_step,
  trigger_step, mark_step_skipped_when_false, notify_when_skipped_summary, run_candidate,
  after_when, consider, schedule_from, schedule_next_forward_step,
}
use warden_core.Engine.Chain.{
  maybe_resume_spawn_compensation, wake_parent, on_child_saga_terminal, Chain, chain,
}
use warden_core.Ledger.Relation.{Extends, Extends-order}
use warden_core.Ledger.Primitives.{primitive_rules, Extends-children}
use warden_core.Ledger.Steps.{
  Extends-fail_step, Extends-lifecycle, Extends-completion, Extends-walk, Extends-spawn_undo,
}
use warden_core.Ledger.Chains.{
  Extends-require, Extends-resolve, Extends-create, Extends-prepare, Extends-boundary,
  Extends-finish,
}

Extends-spawn_one :
    (env : Env) (t : String) (step : Step) (spec : SpawnSpec) (x : String × Json)
    → Keeps Extends (spawn_one_child env t step spec x)
unfolding spawn_one_child
Extends-spawn_one env t step spec (id, item) =
    search (primitive_rules, Extends-require, Extends-resolve, Extends-create, Extends-children)
      depth 16

Extends-spawn_children :
    (env : Env) (t : String) (step : Step) (spec : SpawnSpec) (xs : List (String × Json))
    → Keeps Extends (spawn_children env t step spec xs)
unfolding spawn_children
Extends-spawn_children env t step spec [] = search primitive_rules
Extends-spawn_children env t step spec (x ∷ xs) =
    let rest = Extends-spawn_children env t step spec xs in
    search (primitive_rules, Extends-spawn_one) depth 12

module _ (env : Env) {wake : String → Action} (wakes : (t : String) → Keeps Extends (wake t)) where
  module _ {finish : String → String → Json → Action}
      (finishes : (t span : String) (output : Json) → Keeps Extends (finish t span output)) where
    Extends-after_spawn :
        (t : String) (step : Step) (r : Outcome (List (String × String)))
        → Keeps Extends (after_spawn env wake finish t step r)
    Extends-after_spawn t step (done children) = finishes t step.span_id _
    Extends-after_spawn t step (raised e) = search (primitive_rules, Extends-fail_step) depth 12

    Extends-run_spawn :
        (t : String) (step : Step) (spec : SpawnSpec) (xs : List (String × Json))
        → Keeps Extends (run_spawn env wake finish t step spec xs)
    unfolding run_spawn
    Extends-run_spawn t step spec xs = record {
      at = λ w.
          let (r, w') = in_transaction (spawn_children env t step spec xs) w in
          Extends-order.transitive
            ((Keeps-in_transaction Extends-order (spawn_children env t step spec xs)
                (Extends-spawn_children env t step spec xs)).at
              w)
            ((Extends-after_spawn t step r).at w');
    }

    Extends-spawn_validated :
        (t : String) (step : Step) (spec : SpawnSpec) (s : Spawnable)
        → Keeps Extends (spawn_validated env wake finish t step spec s)
    Extends-spawn_validated t step spec (invalid code) = Extends-fail_step env wakes t _ _ _
    Extends-spawn_validated t step spec (valid l) = Extends-run_spawn t step spec l

    Extends-execute_spawn :
        (t : String) (step : Step) → Keeps Extends (execute_spawn_sagas env wake finish t step)
    unfolding execute_spawn_sagas
    Extends-execute_spawn t step =
        search (primitive_rules, Extends-spawn_validated, Extends-fail_step) depth 12

    Extends-close_join :
        (t : String) (step : Step) (spec : JoinSpec) (p : Summary × Json)
        → Keeps Extends (close_join env wake finish t step spec p)
    Extends-close_join t step spec (summary, payload) =
        search (primitive_rules, Extends-lifecycle) depth 12

    Extends-complete_join :
        (t : String) (step : Step) → Keeps Extends (complete_join env wake finish t step)
    unfolding complete_join
    Extends-complete_join t step = search (primitive_rules, Extends-close_join) depth 16

    pub Extends-try_join :
        (t : String) (step : Step) → Keeps Extends (try_complete_join env wake finish t step)
    unfolding try_complete_join
    Extends-try_join t step = search (primitive_rules, Extends-complete_join) depth 12

    Extends-park :
        (t : String) (step : Step) → Keeps Extends (park_or_complete_join env wake finish t step)
    unfolding park_or_complete_join
    Extends-park t step = search (primitive_rules, Extends-try_join) depth 12

  module _ {next : String → ℕ → Action}
      (schedules : (t : String) (n : ℕ) → Keeps Extends (next t n)) where
    Extends-native_kind :
        (k : StepKind) (t : String) (step : Step)
        → Keeps Extends (run_native_kind env wake next k t step)
    Extends-native_kind StepKind.spawn_sagas t step =
        Extends-execute_spawn (Extends-finish env wakes schedules) t step
    Extends-native_kind StepKind.join_sagas t step =
        Extends-park (Extends-finish env wakes schedules) t step
    Extends-native_kind StepKind.commit t step = search primitive_rules
    Extends-native_kind StepKind.reason t step = search primitive_rules
    Extends-native_kind StepKind.other t step = search primitive_rules

    Extends-native :
        (t : String) (step : Step) → Keeps Extends (run_engine_native env wake next t step)
    unfolding run_engine_native
    Extends-native t step = Extends-native_kind step.spec.step_kind t step

    Extends-dispatch_step :
        (t : String) (step : Step) (s : StepStatus) (o : Options)
        → Keeps Extends (dispatch_step env wake next t step s o)
    unfolding dispatch_step
    Extends-dispatch_step t step s o =
        search (primitive_rules, Extends-native, Extends-prepare) depth 12

    Extends-queue :
        (saga : Saga) (step : Step) (s : StepStatus) (p : Payload)
        → Keeps Extends (queue_command env wake next saga step s p)
    unfolding queue_command
    Extends-queue saga step s p = search primitive_rules depth 12

    Extends-start_step :
        (t : String) (step : Step) (o : Options) → Keeps Extends (start_step env wake next t step o)
    unfolding start_step
    Extends-start_step t step o =
        search (primitive_rules, Extends-dispatch_step, Extends-fail_step, Extends-queue) depth 16

    pub Extends-trigger :
        (t : String) (n : ℕ) (o : Options) → Keeps Extends (trigger_step env wake next t n o)
    unfolding trigger_step
    Extends-trigger t n o = search (primitive_rules, Extends-start_step) depth 12

    Extends-mark_skipped :
        (t : String) (step : Step)
        → Keeps Extends (mark_step_skipped_when_false env wake next t step)
    unfolding mark_step_skipped_when_false
    Extends-mark_skipped t step = search primitive_rules depth 12

    Extends-skip_summary :
        (t : String) (n : ℕ) → Keeps Extends (notify_when_skipped_summary env wake next t n)
    unfolding notify_when_skipped_summary
    Extends-skip_summary t n = search primitive_rules

    Extends-run_candidate :
        (t : String) (step : Step) (n : ℕ) → Keeps Extends (run_candidate env wake next t step n)
    Extends-run_candidate t step n = search (primitive_rules, Extends-skip_summary, Extends-trigger)

    Extends-after_when :
        (t : String) (step : Step) (n : ℕ) (rest : Action) (v : Verdict)
        → Keeps Extends rest
        → Keeps Extends (after_when env wake next t step n rest v)
    Extends-after_when t step n rest (fails message) k = Extends-fail_step env wakes t _ _ _
    Extends-after_when t step n rest (holds true) k = Extends-run_candidate t step n
    Extends-after_when t step n rest (holds false) k =
        search (primitive_rules, Extends-mark_skipped, Extends-skip_summary, Extends-boundary) depth
          12

    Extends-consider :
        (t : String) (step : Step) (n : ℕ) (rest : Action)
        → Keeps Extends rest
        → Keeps Extends (consider env wake next t step n rest)
    unfolding consider
    Extends-consider t step n rest k =
        search (primitive_rules, Extends-run_candidate, Extends-after_when) depth 12

    Extends-schedule_from :
        (t : String) (rs : List Step) (n : ℕ) → Keeps Extends (schedule_from env wake next t rs n)
    unfolding schedule_from
    Extends-schedule_from t [] n =
        search (primitive_rules, Extends-skip_summary, Extends-completion)
    Extends-schedule_from t (r ∷ rs) n =
        Extends-consider t r n _ (Extends-schedule_from t rs (suc n))

    Extends-schedule_next :
        (t : String) (n : ℕ) → Keeps Extends (schedule_next_forward_step env wake next t n)
    unfolding schedule_next_forward_step
    Extends-schedule_next t n = search (primitive_rules, Extends-schedule_from)

    Extends-resume_spawn :
        (t : String) → Keeps Extends (maybe_resume_spawn_compensation env wake next t)
    unfolding maybe_resume_spawn_compensation
    Extends-resume_spawn t = search (primitive_rules, Extends-spawn_undo, Extends-walk) depth 12

    Extends-wake_parent : (parent : Saga) → Keeps Extends (wake_parent env wake next parent)
    unfolding wake_parent
    Extends-wake_parent parent =
        let finishes = Extends-finish env wakes schedules in
        search (primitive_rules, Extends-try_join, Extends-resume_spawn) depth 14

    Extends-child_terminal : (t : String) → Keeps Extends (on_child_saga_terminal env wake next t)
    unfolding on_child_saga_terminal
    Extends-child_terminal t = search (primitive_rules, Extends-wake_parent) depth 14

pub record ChainExtends (c : Chain) : Type 0 where
  pub wakes : (t : String) → Keeps Extends (c.wake t)
  pub schedules : (t : String) (n : ℕ) → Keeps Extends (c.schedule_next t n)

pub chain-Extends : (env : Env) (fuel : ℕ) → ChainExtends (chain env fuel)
unfolding chain
chain-Extends env zero = record {
  wakes = λ t. search primitive_rules;
  schedules = λ t n. search primitive_rules;
}
chain-Extends env (suc fuel) =
    let c = chain-Extends env fuel in
    record {
      wakes = Extends-child_terminal env c.wakes c.schedules;
      schedules = Extends-schedule_next env c.wakes c.schedules;
    }
