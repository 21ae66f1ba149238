-- ===== src/Handover/Workers.antt =====
-- The relation Guards for the transactions of Delivery/Claims, Delivery/Worker and Delivery/Queue.
use warden_core.Prelude.{
  ℕ, String, ◌≡◌, Bool, true, ◌&&◌, some, arith, inl, inr, Bool-cases, is_some, find_first,
}
use warden_core.Json.{Json}
use warden_core.Model.{EventType, Hook, execution_failed, result_emitted, World, Env}
use warden_core.Tx.{◌>>◌, pure, reads, ◌>>=◌, when}
use warden_core.Tx.Keeps.{Keeps, keeps_rules, Keeps-raise, Keeps-bind, Keeps-reads, Keeps-pure}
use warden_core.Store.{hook, now, draw}
use warden_core.Delivery.Claims.{
  claims_key, is_owned_by, claim_is_stale, stale_claim_cutoff, reap_stale_claim_by_key,
  reap_stale_processed_commands, try_claim, claim_still_owned, verify_claim_before_emit,
  release_command_claim,
}
use warden_core.Delivery.Worker.{
  Scope, report_result, finalize_success, write_failure, finalize_failure,
  finalize_adapter_resolution_failure, finalize_worker_config_load_failure, Execution, run_command,
}
use warden_core.Handover.Claims.{is_unique_claims}
use warden_core.Handover.Guarded.{
  Guards, Guards-order, GuardsOpen, GuardsOpen-order, Guards-of, GuardsOpen-of, SameClaims-hook,
  SameClaims-now, SameClaims-draw,
}
use warden_core.Handover.Writes.{
  Guards-keep, Guards-drop, Guards-create, Guards-mark, SameClaims-report, GuardsOpen-release,
  stale-unfinished, owned_open,
}

ruleset open_rules = (keeps_rules, GuardsOpen-order, GuardsOpen-release)

GuardsOpen-hook : (k : String) (h : Hook) → Keeps (GuardsOpen k) (hook h)
GuardsOpen-hook k h = GuardsOpen-of (SameClaims-hook h)

guarded : {w w' : World} → (is_unique_claims w.claims ≡ true → Guards w w') → Guards w w'
guarded h = record { unique = λ u. (h u).unique u; kept = λ u k f. (h u).kept u k f }

Guards-hook : (h : Hook) → Keeps Guards (hook h)
Guards-hook h = Guards-of (SameClaims-hook h)

Guards-now : Keeps Guards now
Guards-now = Guards-of SameClaims-now

Guards-draw : (env : Env) → Keeps Guards (draw env)
Guards-draw env = Guards-of (SameClaims-draw env)

module _ (env : Env) where
  Guards-report :
      (s : Scope) (e : EventType) (output : Json) → Keeps Guards (report_result env s e output)
  Guards-report s e output = Guards-of (SameClaims-report env s e output)

  GuardsOpen-report :
      (k : String) (s : Scope) (e : EventType) (output : Json)
      → Keeps (GuardsOpen k) (report_result env s e output)
  GuardsOpen-report k s e output = GuardsOpen-of (SameClaims-report env s e output)

  failure_report :
      (s : Scope) (t : String) (e : EventType) (output : Json)
      → Keeps (GuardsOpen s.idempotency_key) (do
        report_result env s e output
        hook (execution_failed s.step_span_id)
        hook (result_emitted s.step_span_id e)
        release_command_claim s.idempotency_key (some t))
  failure_report s t e output = search (open_rules, GuardsOpen-hook, GuardsOpen-report) depth 12

  Guards-write_failure :
      (s : Scope) (t : String) (e : EventType) (output : Json)
      → Keeps Guards (write_failure env s t e output)
  unfolding write_failure verify_claim_before_emit claim_still_owned when reads pure ◌>>=◌
  Guards-write_failure s t e output = record {
    at = λ w. elim (Bool-cases (is_some (find_first (is_owned_by s.idempotency_key t) w.claims))) [
      | inl owned ↦ rw owned (
          guarded λ u.
            ((failure_report s t e output).at w).guards
              (owned_open s.idempotency_key t w.claims u owned))
      | inr lost ↦ rw lost (Guards-order.reflexive w)
    ];
  }

  ruleset worker_rules = (
    keeps_rules, Guards-order, Guards-write_failure, Guards-mark, Guards-create, Guards-hook,
    Guards-report,
  )

  Guards-finalize_success :
      (s : Scope) (t : String) (e : EventType) (output : Json)
      → Keeps Guards (finalize_success env s t e output)
  unfolding finalize_success
  Guards-finalize_success s t e output = search worker_rules depth 12

  Guards-finalize_failure :
      (s : Scope) (t : String) (e : EventType) (output : Json)
      → Keeps Guards (finalize_failure env s t e output)
  unfolding finalize_failure
  Guards-finalize_failure s t e output = search worker_rules depth 12

  Guards-adapter_failure :
      (s : Scope) (t error : String)
      → Keeps Guards (finalize_adapter_resolution_failure env s t error)
  unfolding finalize_adapter_resolution_failure
  Guards-adapter_failure s t error = search worker_rules depth 12

  Guards-load_failure :
      (s : Scope) (undo : Bool) (t error code : String)
      → Keeps Guards (finalize_worker_config_load_failure env s undo t error code)
  unfolding finalize_worker_config_load_failure
  Guards-load_failure s undo t error code = search worker_rules depth 12

  pub Guards-run_command :
      (s : Scope) (undo : Bool) (t : String) (x : Execution)
      → Keeps Guards (run_command env s undo t x)
  unfolding run_command
  Guards-run_command s undo t (Execution.unprepared error) = Guards-load_failure s undo t error _
  Guards-run_command s undo t (Execution.unloaded error code) =
      Guards-load_failure s undo t error code
  Guards-run_command s undo t (Execution.unresolved error) = Guards-adapter_failure s t error
  Guards-run_command s undo t Execution.unprompted = Keeps-raise Guards-order _
  Guards-run_command s undo t (Execution.returned output) = Guards-finalize_success s t _ output
  Guards-run_command s undo t (Execution.threw output) = Guards-finalize_failure s t _ output

  pub Guards-try_claim : (k namespace : String) → Keeps Guards (try_claim env k namespace)
  unfolding try_claim
  Guards-try_claim k namespace =
      Keeps-bind Guards-order _ _ (Guards-draw env)
        λ token. Keeps-bind Guards-order _ _ Guards-now λ at. search worker_rules depth 12

  Guards-claim_cutoff : Keeps Guards (stale_claim_cutoff env)
  unfolding stale_claim_cutoff
  Guards-claim_cutoff = search (worker_rules, Guards-now) depth 12

  pub Guards-reap_by_key : (k : String) → Keeps Guards (reap_stale_claim_by_key env k)
  unfolding reap_stale_claim_by_key
  Guards-reap_by_key k = Keeps-bind Guards-order _ _ Guards-claim_cutoff λ cutoff.
      Keeps-bind Guards-order _ _ (Keeps-reads Guards-order _) λ found.
        Keeps-bind Guards-order _ _
          (Guards-keep (λ c. claims_key k c && claim_is_stale c cutoff)
            (λ c h. stale-unfinished c cutoff (ground arith)))
          (λ _. Keeps-pure Guards-order found)

  pub Guards-reap_claims : (n : ℕ) → Keeps Guards (reap_stale_processed_commands env n)
  unfolding reap_stale_processed_commands
  Guards-reap_claims n = Keeps-bind Guards-order _ _ Guards-claim_cutoff λ cutoff.
      Keeps-bind Guards-order _ _ (Keeps-reads Guards-order _) λ found.
        Keeps-bind Guards-order _ _
          (Guards-drop (λ c. claim_is_stale c cutoff) (λ c h. stale-unfinished c cutoff h) n)
          (λ _. Keeps-pure Guards-order found)
