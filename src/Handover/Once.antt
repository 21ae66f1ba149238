-- ===== src/Handover/Once.antt =====
-- The key of a command whose claim is finished (Delivery/Claims, Delivery/Worker).
use warden_core.Prelude.{
  ℕ, ◌-◌, String, ◌≡◌, refl, ◌∙◌, ◌&&◌, Bool, true, false, none, exists, arith, is_some, find_first,
}
use warden_core.Prelude.Search.{exists-narrow, exists-widen, found-exists}
use warden_core.Model.{World, Env}
use warden_core.Tx.{
  done, pure, raise, reads, writes, ◌>>=◌, in_transaction, catch_integrity, when, skip,
}
use warden_core.Store.{now, hook, draw}
use warden_core.Delivery.Claims.{
  claims_key, is_owned_by, create_claim, try_claim, claim_idempotency_key, stale_claim_cutoff,
  reap_stale_claim_by_key, mark_claim_result_emitted, verify_claim_before_emit, claim_still_owned,
  claim_is_stale,
}
use warden_core.Delivery.Worker.{
  Scope, Execution, run_command, finalize_success, write_failure, finalize_failure,
  finalize_adapter_resolution_failure, finalize_worker_config_load_failure,
}
use warden_core.Handover.Claims.{is_unique_claims, is_finished, is_unfinished, finished-only}
use warden_core.Handover.Runs.{Run, Guards-Run}

module _ (k : String) (w : World) (free : exists (is_unfinished k) w.claims ≡ false) where
  not_stale :
      (cutoff : ℕ) → exists (λ c. claims_key k c && claim_is_stale c cutoff) w.claims ≡ false
  unfolding claim_is_stale
  not_stale cutoff = exists-narrow (is_unfinished k) _ (λ c h. ground arith) w.claims free

  not_owned : (token : String) → exists (is_owned_by k token) w.claims ≡ false
  not_owned token =
      exists-narrow (is_unfinished k) (is_owned_by k token) (λ c h. ground arith) w.claims free

  -- With a claim on the key but no unfinished one, a further claim is refused.
  pub claim-refused :
      (env : Env) (namespace : String)
      → exists (claims_key k) w.claims ≡ true
      → (claim_idempotency_key env k namespace w).0 ≡ done none
  unfolding claim_idempotency_key try_claim draw now create_claim hook reap_stale_claim_by_key
      stale_claim_cutoff catch_integrity in_transaction ◌>>=◌ reads writes pure raise
  claim-refused env namespace taken = rw (taken, not_stale (w.now - env.stale_claim_seconds)) refl

module _ (env : Env) (s : Scope) (w : World)
    (free : exists (is_unfinished s.idempotency_key) w.claims ≡ false) where
  lost : (token : String) → exists (is_owned_by s.idempotency_key token) w.claims ≡ false
  lost token = not_owned s.idempotency_key w free token

  unverified :
      (token : String) → is_some (find_first (is_owned_by s.idempotency_key token) w.claims) ≡ false
  unverified token = found-exists _ w.claims ∙ lost token

  -- Without an unfinished claim on its key, a worker sends nothing, whatever token it holds.
  pub run_command-silent :
      (undo : Bool) (token : String) (x : Execution)
      → (run_command env s undo token x w).1.outbox ≡ w.outbox
  unfolding run_command finalize_success write_failure finalize_failure
      finalize_adapter_resolution_failure finalize_worker_config_load_failure
      mark_claim_result_emitted verify_claim_before_emit claim_still_owned in_transaction hook when
      ◌>>=◌ reads writes pure raise skip
  run_command-silent undo token (Execution.unprepared error) = rw (unverified token) refl
  run_command-silent undo token (Execution.unloaded error code) = rw (unverified token) refl
  run_command-silent undo token (Execution.unresolved error) = rw (unverified token) refl
  run_command-silent undo token Execution.unprompted = refl
  run_command-silent undo token (Execution.returned output) = rw (lost token) refl
  run_command-silent undo token (Execution.threw output) = rw (unverified token) refl

-- Once the claim on a command's key is finished (a success was reported under it), and the claims
-- are apart by key, then after any moves of workers, consumers, maintenance and the clock, every
-- attempt to claim the key is refused, and no worker, whatever token it holds and however its run
-- ended, puts a result of that command in the outbox.
pub Run-once :
    (env : Env) (s : Scope) (namespace : String) (undo : Bool) (token : String) (x : Execution)
    {w w' : World}
    → is_unique_claims w.claims ≡ true
    → exists (is_finished s.idempotency_key) w.claims ≡ true
    → Run env w w'
    → ((claim_idempotency_key env s.idempotency_key namespace w').0 ≡ done none)
      × ((run_command env s undo token x w').1.outbox ≡ w'.outbox)
Run-once env s namespace undo token x {w} {w'} u h run =
    let guards = Guards-Run run in
    let kept : exists (is_finished s.idempotency_key) w'.claims ≡ true =
      guards.kept u s.idempotency_key h in
    let free : exists (is_unfinished s.idempotency_key) w'.claims ≡ false =
      finished-only s.idempotency_key w'.claims (guards.unique u) kept in
    let taken : exists (claims_key s.idempotency_key) w'.claims ≡ true =
      exists-widen (is_finished s.idempotency_key) (claims_key s.idempotency_key)
        (λ c e. ground arith) w'.claims kept in
    (
      claim-refused s.idempotency_key w' free env namespace taken,
      run_command-silent env s w' free undo token x,
    )
