-- ===== src/Handover/Closed.antt =====
-- Outbox rows whose delivery is completed, under the moves of Runs.antt (Delivery/Queue).
use warden_core.Prelude.{ℕ, String, ◌≡◌, refl, Bool, true, false, Option, List, eqb, exists, arith}
use warden_core.Json.{Json}
use warden_core.Model.{EventType, Topic, OutboxRow, Claim, World, Env}
use warden_core.Tx.{done, pure, reads, writes, ◌>>=◌, in_transaction}
use warden_core.Tx.Keeps.{Keeps, Keeps-raise}
use warden_core.Store.{now}
use warden_core.Delivery.Claims.{
  create_claim, try_claim, stale_claim_cutoff, reap_stale_claim_by_key,
  reap_stale_processed_commands, mark_claim_result_emitted, verify_claim_before_emit,
  release_command_claim,
}
use warden_core.Delivery.Worker.{
  Scope, report_result, finalize_success, write_failure, finalize_failure,
  finalize_adapter_resolution_failure, finalize_worker_config_load_failure, Execution, run_command,
}
use warden_core.Delivery.Queue.{set_rows, is_waiting, poll}
use warden_core.Handover.Numbered.{is_closed, select-spares}
use warden_core.Handover.Runs.{Move, Run}
use warden_core.Handover.Delivers.{
  Delivers, Delivers-order, Delivers-hook, Delivers-claims, Delivers-draw, Delivers-now,
  Delivers-emit, Delivers-poll, Delivers-close, Delivers-reap_rows, Delivers-paired_round,
  numbers_rows, box_rules,
}

ruleset worker_box =
    (box_rules, Delivers-hook, Delivers-claims, Delivers-draw, Delivers-now, Delivers-emit)

module _ (env : Env) where
  Delivers-create : (c : Claim) → Keeps Delivers (create_claim c)
  unfolding create_claim
  Delivers-create c = search worker_box

  Delivers-try_claim : (k namespace : String) → Keeps Delivers (try_claim env k namespace)
  unfolding try_claim
  Delivers-try_claim k namespace = search (worker_box, Delivers-create) depth 16

  Delivers-claim_cutoff : Keeps Delivers (stale_claim_cutoff env)
  unfolding stale_claim_cutoff
  Delivers-claim_cutoff = search worker_box

  Delivers-reap_claim : (k : String) → Keeps Delivers (reap_stale_claim_by_key env k)
  unfolding reap_stale_claim_by_key
  Delivers-reap_claim k = search (worker_box, Delivers-claim_cutoff) depth 12

  Delivers-reap_claims : (n : ℕ) → Keeps Delivers (reap_stale_processed_commands env n)
  unfolding reap_stale_processed_commands
  Delivers-reap_claims n = search (worker_box, Delivers-claim_cutoff) depth 12

  Delivers-mark : (k t : String) → Keeps Delivers (mark_claim_result_emitted k t)
  unfolding mark_claim_result_emitted
  Delivers-mark k t = search worker_box depth 12

  Delivers-verify : (k t : String) → Keeps Delivers (verify_claim_before_emit k t)
  unfolding verify_claim_before_emit
  Delivers-verify k t = search worker_box

  Delivers-release : (k : String) (t : Option String) → Keeps Delivers (release_command_claim k t)
  unfolding release_command_claim
  Delivers-release k t = search worker_box

  Delivers-report :
      (s : Scope) (e : EventType) (output : Json) → Keeps Delivers (report_result env s e output)
  unfolding report_result
  Delivers-report s e output = search worker_box

  ruleset report_box =
      (worker_box, Delivers-mark, Delivers-verify, Delivers-release, Delivers-report)

  Delivers-success :
      (s : Scope) (t : String) (e : EventType) (output : Json)
      → Keeps Delivers (finalize_success env s t e output)
  unfolding finalize_success
  Delivers-success s t e output = search report_box depth 12

  Delivers-write_failure :
      (s : Scope) (t : String) (e : EventType) (output : Json)
      → Keeps Delivers (write_failure env s t e output)
  unfolding write_failure
  Delivers-write_failure s t e output = search report_box depth 12

  Delivers-failure :
      (s : Scope) (t : String) (e : EventType) (output : Json)
      → Keeps Delivers (finalize_failure env s t e output)
  unfolding finalize_failure
  Delivers-failure s t e output = search (box_rules, Delivers-write_failure)

  Delivers-unresolved :
      (s : Scope) (t error : String)
      → Keeps Delivers (finalize_adapter_resolution_failure env s t error)
  unfolding finalize_adapter_resolution_failure
  Delivers-unresolved s t error = search (box_rules, Delivers-write_failure)

  Delivers-unloaded :
      (s : Scope) (undo : Bool) (t error code : String)
      → Keeps Delivers (finalize_worker_config_load_failure env s undo t error code)
  unfolding finalize_worker_config_load_failure
  Delivers-unloaded s undo t error code =
      search (box_rules, Delivers-hook, Delivers-write_failure) depth 12

  Delivers-run_command :
      (s : Scope) (undo : Bool) (t : String) (x : Execution)
      → Keeps Delivers (run_command env s undo t x)
  unfolding run_command
  Delivers-run_command s undo t (Execution.unprepared error) = Delivers-unloaded s undo t error _
  Delivers-run_command s undo t (Execution.unloaded error code) =
      Delivers-unloaded s undo t error code
  Delivers-run_command s undo t (Execution.unresolved error) = Delivers-unresolved s t error
  Delivers-run_command s undo t Execution.unprompted = Keeps-raise Delivers-order _
  Delivers-run_command s undo t (Execution.returned output) = Delivers-success s t _ output
  Delivers-run_command s undo t (Execution.threw output) = Delivers-failure s t _ output

Delivers-move : {env : Env} {w w' : World} → Move env w w' → Delivers w w'
Delivers-move {env} {w} (Move.claim k namespace) = (Delivers-try_claim env k namespace).at w
Delivers-move {env} {w} (Move.reap_claim k) = (Delivers-reap_claim env k).at w
Delivers-move {env} {w} (Move.reap_claims n) = (Delivers-reap_claims env n).at w
Delivers-move {env} {w} (Move.report s undo token x) =
    (Delivers-run_command env s undo token x).at w
Delivers-move {w = w} (Move.poll_rows topic n) = (Delivers-poll topic n).at w
Delivers-move {w = w} (Move.close_row id s) = (Delivers-close id s).at w
Delivers-move {env} {w} (Move.reap_rows topic) = (Delivers-reap_rows env topic).at w
Delivers-move {w = w} (Move.reap_pair cutoff) = (Delivers-paired_round cutoff).at w
Delivers-move (Move.tick n) = record { numbered = λ h. h; closed = λ h i c. c }

Delivers-Run : {env : Env} {w w' : World} → Run env w w' → Delivers w w'
Delivers-Run {w = w} Run.start = Delivers-order.reflexive w
Delivers-Run (Run.later r m) = Delivers-order.transitive (Delivers-Run r) (Delivers-move m)

-- If the outbox rows are numbered upwards and the row of a number is completed, then after any
-- moves of workers, consumers, maintenance and the clock the row of that number is completed still,
-- and a poll of either topic hands out no row of that number.
pub Run-closed :
    (env : Env) (i n : ℕ) (topic : Topic) {w w' : World}
    → numbers_rows w ≡ true
    → exists (is_closed i) w.outbox ≡ true
    → Run env w w'
    → (exists (is_closed i) w'.outbox ≡ true)
      × ((rows : List OutboxRow) × ((poll topic n w').0 ≡ done rows)
          × (exists (λ r. eqb r.id i) rows ≡ false))
unfolding poll in_transaction ◌>>=◌ reads pure set_rows now writes
Run-closed env i n topic {w} {w'} h c run =
    let moves = Delivers-Run run in
    let still = moves.closed h i c in
    (
      still,
      (
        _,
        refl,
        select-spares (is_waiting topic) (λ r k. ground arith) i n 0 w'.posted w'.outbox
            (moves.numbered h) still,
      ),
    )
