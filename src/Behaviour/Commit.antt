-- ===== src/Behaviour/Commit.antt =====
-- The result of _build_commit_worker_command (Engine/Command).
use warden_core.Prelude.{
  String, ◌≡◌, refl, ◌∙◌, Bool, true, false, not, Option, none, some, inl, inr, Bool-cases,
  if◌then◌else◌, arith, ◌&&◌, ◌||◌, is_some,
}
use warden_core.Json.{Json, empty_dict}
use warden_core.Model.{Step, Saga, World, Env, Payload, do_commit}
use warden_core.Tx.{
  Tx, Action, Outcome, done, raised, pure, raise, reads, ◌>>=◌, when, with_some, proceed, writes,
}
use warden_core.Store.{get_saga, saga_of, hook}
use warden_core.Engine.Failure.{fail_step}
use warden_core.Engine.Policy.{
  Gate, passed, denied, errored, step_has_policy_gate, evaluate_policy_gate, run_policy_gate,
  dispatch_policy_gate_hooks, policy_binding,
}
use warden_core.Engine.Command.{
  command_of, checked, is_single, commit_or_hold, commit_policy_stopped_step, fail_commit_on_policy,
  build_commit_worker_command,
}

-- The result is a command.
abbrev pub is_command_built : Outcome (Option Payload) → Bool
is_command_built (done (some p)) = true
is_command_built _ = false

ends_none-outcome :
    (r : Outcome (Unit {0})) (w : World) → is_command_built (proceed (λ _. pure none) r w).0 ≡ false
unfolding pure
ends_none-outcome (done a) w = refl
ends_none-outcome (raised e) w = refl

ends_none : (m : Action) (w : World) → is_command_built ((m >>= λ _. pure none) w).0 ≡ false
unfolding ◌>>=◌
ends_none m w = ends_none-outcome (m w).0 (m w).1

abbrev pub is_passed : Gate → Bool
is_passed passed = true
is_passed _ = false

-- What a commit needs to reach a worker: one tool, no human review, and a gate that passes, if it has
-- one.
abbrev pub is_commit_admitted : Env → Saga → Step → Json → Bool
is_commit_admitted env saga step args =
    is_single step.spec.tools_allow
    && not step.spec.hitl_required
    && (not (step_has_policy_gate step.spec)
        || is_passed (
            evaluate_policy_gate env step.spec
              (policy_binding "before_commit" saga step args empty_dict step.spec.tools_allow)))

module _ (env : Env) (wake : String → Action) (t : String) (step : Step) (args : Json) where
  abbrev is_valid : Bool
  is_valid = not (is_some (env.command_error (do_commit (command_of step))))

  abbrev gate_passes : Saga → Bool
  gate_passes saga = is_passed (
      evaluate_policy_gate env step.spec
        (policy_binding "before_commit" saga step args empty_dict step.spec.tools_allow))

  checked-outcome :
      (o : Option String) (w : World)
      → env.command_error (do_commit (command_of step)) ≡ o
      → is_command_built
          ((checked env (do_commit (command_of step)) >>= λ command. pure (some command)) w).0
        ≡ not (is_some o)
  unfolding checked ◌>>=◌ pure raise with_some
  checked-outcome none w h = rw h refl
  checked-outcome (some e) w h = rw h refl

  commit_or_hold-built :
      (w : World)
      → is_command_built (commit_or_hold env wake t step args w).0
        ≡ not step.spec.hitl_required && is_valid
  commit_or_hold-built w = elim (Bool-cases step.spec.hitl_required) [
    | inl held ↦ rw held (ends_none _ w)
    | inr free ↦ rw free (checked-outcome _ w refl)
  ]

  -- A gate that does not pass fails the step, and no command comes of it.
  stops-outcome :
      (m : Tx (Option Payload)) (r : Outcome (Unit {0})) (w : World)
      → let s = proceed (λ _. pure true) r w in
        is_command_built (proceed (λ stopped. if stopped then pure none else m) s.0 s.1).0 ≡ false
  unfolding pure
  stops-outcome m (done a) w = refl
  stops-outcome m (raised e) w = refl

  stops :
      (m : Tx (Option Payload)) (n : Action) (w : World)
      → is_command_built
          ((n >>= (λ _. pure true) >>= λ stopped. if stopped then pure none else m) w).0
        ≡ false
  unfolding ◌>>=◌
  stops m n w = stops-outcome m (n w).0 (n w).1

  gate-stops :
      (g : Gate) (w : World)
      → is_command_built
          ((fail_commit_on_policy env wake t step g >>= λ stopped.
              if stopped then pure none else commit_or_hold env wake t step args)
            w).0
        ≡ is_passed g && not step.spec.hitl_required && is_valid
  unfolding ◌>>=◌ pure
  gate-stops passed w = commit_or_hold-built w
  gate-stops denied w =
      stops (commit_or_hold env wake t step args)
        (fail_step env wake t step.span_id "POLICY_COMMIT_DENIED"
          "policy cel returned false; commit not allowed")
        w
  gate-stops (errored named message) w =
      stops (commit_or_hold env wake t step args)
        (fail_step env wake t step.span_id "POLICY_EVALUATION_FAILED" message) w

  hooked : (g : Gate) (w : World) → (dispatch_policy_gate_hooks step.span_id g w).0 ≡ done tt
  unfolding dispatch_policy_gate_hooks when hook writes pure
  hooked passed w = refl
  hooked denied w = refl
  hooked (errored true message) w = refl
  hooked (errored false message) w = refl

  gated :
      (saga : Saga) (w : World)
      → saga_of t w ≡ some saga
      → step_has_policy_gate step.spec ≡ true
      → let g =
          evaluate_policy_gate env step.spec
            (policy_binding "before_commit" saga step args empty_dict step.spec.tools_allow) in
        is_command_built
          ((commit_policy_stopped_step env wake t step args >>= λ stopped.
              if stopped then pure none else commit_or_hold env wake t step args)
            w).0
        ≡ is_passed g && not step.spec.hitl_required && is_valid
  unfolding commit_policy_stopped_step run_policy_gate get_saga ◌>>=◌ reads with_some pure
  gated saga w here has =
      let g =
        evaluate_policy_gate env step.spec
          (policy_binding "before_commit" saga step args empty_dict step.spec.tools_allow) in
      rw (has, here, hooked g w) (gate-stops g _)

  ungated :
      (w : World)
      → step_has_policy_gate step.spec ≡ false
      → is_command_built
          ((commit_policy_stopped_step env wake t step args >>= λ stopped.
              if stopped then pure none else commit_or_hold env wake t step args)
            w).0
        ≡ not step.spec.hitl_required && is_valid
  unfolding commit_policy_stopped_step ◌>>=◌ pure
  ungated w free = rw free (commit_or_hold-built w)

  regroup : (h g v : Bool) → g && h && v ≡ (true && h && (not true || g)) && v
  regroup h g v = ground arith

  regroup_free : (h g v : Bool) → h && v ≡ (true && h && (not false || g)) && v
  regroup_free h g v = ground arith

  -- _build_commit_worker_command makes a worker command of a commit step exactly when its spec
  -- names one tool, it needs no human review, its policy gate (if it has one) passes on the given
  -- arguments, and the command's model accepts it.
  pub build_commit_worker_command_iff :
      (saga : Saga) (w : World)
      → saga_of t w ≡ some saga
      → is_command_built (build_commit_worker_command env wake t step args w).0
        ≡ is_commit_admitted env saga step args
          && not (is_some (env.command_error (do_commit (command_of step))))
  unfolding build_commit_worker_command ◌>>=◌ when raise pure
  build_commit_worker_command_iff saga w here =
      elim (Bool-cases (is_single step.spec.tools_allow)) [
        | inr many ↦ rw many refl
        | inl one ↦ elim (Bool-cases (step_has_policy_gate step.spec)) [
          | inr free ↦
              rw (one, free)
                (ungated w free
                  ∙ regroup_free (not step.spec.hitl_required) (gate_passes saga) is_valid)
          | inl has ↦
              rw (one, has)
                (gated saga w here has
                  ∙ regroup (not step.spec.hitl_required) (gate_passes saga) is_valid)
        ]
      ]
