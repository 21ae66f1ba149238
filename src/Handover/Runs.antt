-- ===== src/Handover/Runs.antt =====
-- Workers, consumers and maintenance, interleaved in any order: each transaction is one move.
use warden_core.Prelude.{ℕ, String, Bool, Option, some, arith}
use warden_core.Model.{OutboxStatus, OutboxRow, Topic, Key, event_key, text_key, World, Env}
use warden_core.Tx.Keeps.{Keeps, keeps_rules, Keeps-if, Keeps-skip}
use warden_core.Store.{now}
use warden_core.Delivery.Claims.{try_claim, reap_stale_claim_by_key, reap_stale_processed_commands}
use warden_core.Delivery.Worker.{Scope, Execution, run_command}
use warden_core.Delivery.Queue.{
  set_rows, evict_claim, paired_round, poll, set_outbox_status, reap_stale_in_progress_outbox_rows,
  stale_outbox_cutoff, is_unfinished_on,
}
use warden_core.Handover.Guarded.{Guards, Guards-order, Guards-of, SameClaims-set_rows}
use warden_core.Handover.Writes.{Guards-keep}
use warden_core.Handover.Workers.{
  Guards-run_command, Guards-try_claim, Guards-reap_by_key, Guards-reap_claims,
}

-- One transaction of one process, or the clock. A worker may hold any token. The engine's
-- process_saga_event and the requests of people and operators are no moves: they may delete outbox
-- rows and free claims (_clear_worker_result_ingest_dedup, release_worker_claim_for_retry).
pub data Move (env : Env) (w : World) : World → Type 0 where
  claim : (k namespace : String) → Move env w (try_claim env k namespace w).1
  reap_claim : (k : String) → Move env w (reap_stale_claim_by_key env k w).1
  reap_claims : (n : ℕ) → Move env w (reap_stale_processed_commands env n w).1
  report :
      (s : Scope) (undo : Bool) (token : String) (x : Execution)
      → Move env w (run_command env s undo token x w).1
  poll_rows : (topic : Topic) (n : ℕ) → Move env w (poll topic n w).1
  close_row :
      (id : ℕ) (s : OutboxStatus)
      → Move env w (set_outbox_status id s (some OutboxStatus.in_progress) w).1
  reap_rows : (topic : Topic) → Move env w (reap_stale_in_progress_outbox_rows env topic w).1
  reap_pair : (cutoff : ℕ) → Move env w (paired_round cutoff w).1
  tick : (n : ℕ) → Move env w (record w { now = n })

pub data Run (env : Env) (w : World) : World → Type 0 where
  start : Run env w w
  later : {u v : World} → Run env w u → Move env u v → Run env w v

Guards-evict : (k : Key) → Keeps Guards (evict_claim k)
Guards-evict (text_key k) =
    Keeps-if Guards-order _ _ _ (Keeps-skip Guards-order)
      (Guards-keep (is_unfinished_on k) (λ c h. ground arith))
Guards-evict (event_key t e i) = Keeps-skip Guards-order

Guards-set_rows : (p : OutboxRow → Bool) (s : OutboxStatus) → Keeps Guards (set_rows p s)
Guards-set_rows p s = Guards-of (SameClaims-set_rows p s)

ruleset queue_rules = (keeps_rules, Guards-order, Guards-set_rows, Guards-evict)

Guards-poll : (topic : Topic) (n : ℕ) → Keeps Guards (poll topic n)
unfolding poll
Guards-poll topic n = search queue_rules depth 12

Guards-close :
    (id : ℕ) (s : OutboxStatus) (o : Option OutboxStatus) → Keeps Guards (set_outbox_status id s o)
unfolding set_outbox_status
Guards-close id s o = search queue_rules depth 12

Guards-outbox_cutoff : (env : Env) → Keeps Guards (stale_outbox_cutoff env)
unfolding stale_outbox_cutoff now
Guards-outbox_cutoff env = search queue_rules depth 12

Guards-reap_rows :
    (env : Env) (topic : Topic) → Keeps Guards (reap_stale_in_progress_outbox_rows env topic)
unfolding reap_stale_in_progress_outbox_rows
Guards-reap_rows env topic = search (queue_rules, Guards-outbox_cutoff) depth 12

Guards-paired_round : (cutoff : ℕ) → Keeps Guards (paired_round cutoff)
unfolding paired_round
Guards-paired_round cutoff = search queue_rules depth 12

Guards-move : {env : Env} {w w' : World} → Move env w w' → Guards w w'
Guards-move {env} {w} (Move.claim k namespace) = (Guards-try_claim env k namespace).at w
Guards-move {env} {w} (Move.reap_claim k) = (Guards-reap_by_key env k).at w
Guards-move {env} {w} (Move.reap_claims n) = (Guards-reap_claims env n).at w
Guards-move {env} {w} (Move.report s undo token x) = (Guards-run_command env s undo token x).at w
Guards-move {env} {w} (Move.poll_rows topic n) = (Guards-poll topic n).at w
Guards-move {env} {w} (Move.close_row id s) = (Guards-close id s _).at w
Guards-move {env} {w} (Move.reap_rows topic) = (Guards-reap_rows env topic).at w
Guards-move {env} {w} (Move.reap_pair cutoff) = (Guards-paired_round cutoff).at w
Guards-move (Move.tick n) = record { unique = λ u. u; kept = λ u k h. h }

pub Guards-Run : {env : Env} {w w' : World} → Run env w w' → Guards w w'
Guards-Run {w = w} Run.start = Guards-order.reflexive w
Guards-Run (Run.later r m) = Guards-order.transitive (Guards-Run r) (Guards-move m)
