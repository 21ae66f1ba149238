-- ===== src/Safeguards/Guards.antt =====
-- The guards of the retries of forward steps (Recovery/Retry).
use warden_core.Prelude.{
  ◌-◌, String, ◌≡◌, refl, ◌⊎◌, inl, inr, Bool, true, false, not, ◌&&◌, some, find_first, Bool-cases,
  ltb,
}
use warden_core.Model.{
  Saga, Step, Claim, World, Env, saga_awaits_recovery, is_failure, is_commit, is_in_progress,
  is_engine_native_kind,
}
use warden_core.Tx.{
  Tx, Error, recovery_conflict, done, raised, pure, raise, reads, ◌>>=◌, ◌>>◌, skip, with_some,
  catch_claim_active,
}
use warden_core.Store.{is_forward, now}
use warden_core.Engine.Compensation.{is_dirty_forward_step}
use warden_core.Engine.Chain.{Chain}
use warden_core.Delivery.Claims.{claims_key, claim_is_stale, stale_claim_cutoff}
use warden_core.Recovery.Claims.{
  demand, load_saga_step_locked, enforce_commit_force_gating, handle_active_claim,
}
use warden_core.Recovery.Retry.{
  answer, unless_claim_active, execute_step_retry, execute_retry_forward, retry_forward,
  assert_awaiting_recovery_forward, saga_is_running,
}

-- A passed demand goes on, and a failed one raises.
demanded :
    {A : Type 0} (b : Bool) (e : Error) (m : Tx A) (w : World)
    → ((b ≡ true) × ((demand b e >> m) w ≡ m w))
      ⊎ ((b ≡ false) × ((demand b e >> m) w ≡ (raised e, w)))
unfolding ◌>>=◌ skip pure raise
demanded true e m w = inl (refl, refl)
demanded false e m w = inr (refl, refl)

-- The claim of a worker that may still be at work.
pub record IsActive (env : Env) (k : String) (claim : Claim) (w : World) : Type 0 where
  pub found : find_first (claims_key k) w.claims ≡ some claim
  pub unfinished : claim.result_emitted ≡ false
  pub fresh : ltb claim.created_at (w.now - env.stale_claim_seconds) ≡ false

module _ (env : Env) (c : Chain) where
  claim-blocks :
      (step : Step) (token : String) (claim : Claim) (rest : Tx _) (w : World)
      → IsActive env step.idempotency_key claim w
      → unless_claim_active env c step token false rest w
        ≡ (done (answer "claim_active" step.idempotency_key token), w)
  unfolding unless_claim_active handle_active_claim catch_claim_active stale_claim_cutoff now reads
      ◌>>=◌ with_some pure raise claim_is_stale
  claim-blocks step token claim rest w h = rw (h.found, h.unfinished, h.fresh) refl

  step_retry_waits :
      (namespace t span token : String) (allow : Bool) (saga : Saga) (step : Step) (claim : Claim)
      (w : World)
      → load_saga_step_locked namespace t span w ≡ (done (saga, step), w)
      → is_engine_native_kind step.spec.step_kind ≡ false
      → IsActive env step.idempotency_key claim w
      → (execute_step_retry env c namespace t span token false allow w).1 ≡ w
  unfolding execute_step_retry enforce_commit_force_gating ◌>>=◌ raise skip pure
  step_retry_waits namespace t span token allow saga step claim w here worker active =
      elim (Bool-cases (saga_is_running saga.status)) [
        | inr f1 ↦ rw (here, f1) refl
        | inl t1 ↦ elim (Bool-cases (is_forward step)) [
          | inr f2 ↦ rw (here, t1, f2) refl
          | inl t2 ↦ elim (Bool-cases (is_in_progress step.status)) [
            | inr f3 ↦ rw (here, t1, t2, f3) refl
            | inl t3 ↦ rw (here, t1, t2, t3, worker, claim-blocks step token claim _ w active) refl
          ]
        ]
      ]

  abbrev dirty_text : String
  dirty_text = "retry-forward on a dirty failure requires allow_destructive=true"

  abbrev force_text : String
  force_text = "force retry on commit steps requires allow_destructive=true"

  -- What a retry of a parked step asks for.
  abbrev may_retry_forward : Saga → Step → Bool → Bool → Bool
  may_retry_forward saga step force allow =
      saga_awaits_recovery saga.status
      && is_forward step
      && is_failure step.status
      && not (is_dirty_forward_step step && not allow)
      && not (force && is_commit step.spec.step_kind && not allow)

  -- The guards of a retry of a parked step, before the look at a worker's claim.
  execute_retry_forward-guarded :
      (namespace t span token : String) (force allow : Bool) (saga : Saga) (step : Step) (w : World)
      → load_saga_step_locked namespace t span w ≡ (done (saga, step), w)
      → ((may_retry_forward saga step force allow ≡ true)
          × (execute_retry_forward env c namespace t span token force allow w
              ≡ unless_claim_active env c step token force (retry_forward env c t step token) w))
        ⊎ ((may_retry_forward saga step force allow ≡ false)
            × ((e : String) × (execute_retry_forward env c namespace t span token force allow w
                  ≡ (raised (recovery_conflict e), w))))
  unfolding execute_retry_forward assert_awaiting_recovery_forward enforce_commit_force_gating ◌>>=◌
      raise skip pure
  execute_retry_forward-guarded namespace t span token force allow saga step w here =
      elim (Bool-cases (saga_awaits_recovery saga.status)) [
        | inr f1 ↦ inr (rw f1 refl, ("expected AWAITING_RECOVERY", rw (here, f1) refl))
        | inl t1 ↦ elim (Bool-cases (is_forward step)) [
          | inr f2 ↦
              inr (rw (t1, f2) refl, ("applies to forward steps only.", rw (here, t1, f2) refl))
          | inl t2 ↦ elim (Bool-cases (is_failure step.status)) [
            | inr f3 ↦
                inr (
                  rw (t1, t2, f3) refl,
                  ("expected FAILED or TIMED_OUT", rw (here, t1, t2, f3) refl),
                )
            | inl t3 ↦
                rw (here, t1, t2, t3)
                  (elim (Bool-cases (is_dirty_forward_step step && not allow)) [
                    | inl dirty ↦ inr (rw dirty refl, (dirty_text, rw dirty refl))
                    | inr clean ↦
                        elim (Bool-cases (force && is_commit step.spec.step_kind && not allow)) [
                          | inl forced ↦
                              inr (rw (clean, forced) refl, (force_text, rw (clean, forced) refl))
                          | inr plain ↦ inl (rw (clean, plain) refl, rw (clean, plain) refl)
                        ]
                  ])
          ]
        ]
      ]

  -- While the claim of a worker on the step's key is unfinished and not stale, a retry without
  -- force changes nothing, whichever of the two it is; a step that the engine runs itself has no
  -- worker.
  pub retries-wait :
      (namespace t span token : String) (allow : Bool) (saga : Saga) (step : Step) (claim : Claim)
      (w : World)
      → load_saga_step_locked namespace t span w ≡ (done (saga, step), w)
      → is_engine_native_kind step.spec.step_kind ≡ false
      → IsActive env step.idempotency_key claim w
      → ((execute_step_retry env c namespace t span token false allow w).1 ≡ w)
        × ((execute_retry_forward env c namespace t span token false allow w).1 ≡ w)
  retries-wait namespace t span token allow saga step claim w here worker active = (
    step_retry_waits namespace t span token allow saga step claim w here worker active,
    elim (execute_retry_forward-guarded namespace t span token false allow saga step w here) [
      | inl (may, e) ↦ rw (e, claim-blocks step token claim _ w active) refl
      | inr (refused, (x, e)) ↦ rw e refl
    ],
  )
