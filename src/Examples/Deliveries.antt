-- ===== src/Examples/Deliveries.antt =====
-- Commands that are delivered, claimed and reported.
use warden_core.Prelude.{
  ℕ, String, ◌≡◌, refl, ◌+◌, ◌≤◌, ◌⊎◌, Bool, true, false, some, none, List, [], ◌∷◌, exists,
  find_first, count_where, update_where, eqb, arith,
}
use mathlib.Core.List.{Memᴰ}
use warden_core.Json.{empty_dict}
use warden_core.Model.{
  OutboxStatus, EventType, worker_commands, text_key, do_commit, OutboxRow, messages, Claim, World,
  StepStatus, Step,
}
use warden_core.Tx.{done, pure, reads, writes, ◌>>=◌, with_some, in_transaction}
use warden_core.Store.{same_key, now, find_step}
use warden_core.Engine.Command.{command_of}
use warden_core.Engine.Chain.{chain}
use warden_core.Delivery.Claims.{claim_idempotency_key, try_claim}
use warden_core.Delivery.Worker.{Scope, Execution, result_message, run_command}
use warden_core.Delivery.Queue.{
  stale_outbox_cutoff, oldest, set_rows, paired_round, poll, reap_paired_worker_commands_outbox,
}
use warden_core.Handover.Runs.{Move, Run}
use warden_core.Handover.Once.{Run-once}
use warden_core.Handover.Numbered.{is_closed}
use warden_core.Handover.Closed.{Run-closed}
use warden_core.Handover.Reap.{count_stuck, reap_paired_worker_commands_outbox-clears}
use warden_core.Handover.Revival.{stuck-revived}
use warden_core.Handover.Unresolved.{unresolved_undo-IsDropped, unresolved_output}
use warden_core.Behaviour.Late.{IsDropped}
use warden_core.Examples.Data.{services, shop, shipping, charge, row, tables, order, event}
use warden_core.Recovery.Claims.{requeue_worker_outbox}
use warden_core.Safeguards.Requeue.{waits_for, requeue_worker_outbox-waits}

abbrev scope : Scope
scope = record {
  namespace = "shop";
  saga_trace_id = "t";
  step_span_id = "b";
  idempotency_key = "b";
}

abbrev claim : String → Bool → Claim
claim token emitted = record {
  idempotency_key = "b";
  namespace = "shop";
  claim_token = token;
  result_emitted = emitted;
  created_at = 1;
}

abbrev command_row : OutboxStatus → OutboxRow
command_row s = record {
  id = 0;
  message = record {
    namespace = "shop";
    saga_trace_id = "t";
    step_span_id = "b";
    key = text_key "b";
    payload = do_commit (command_of shipping);
  };
  status = s;
  updated_at = 1;
}

abbrev mailed : OutboxStatus → List Claim → World
mailed s cs = record shop { outbox = command_row s ∷ []; posted = 1; claims = cs; now = 20 }

abbrev reported : World
reported = mailed OutboxStatus.completed (claim "x" true ∷ [])

abbrev claimed_again : World
claimed_again = (try_claim services "b" "shop" reported).1

retried : Run services reported claimed_again
retried = Run.later Run.start (Move.claim "b" "shop")

Run-once_example :
    ((claim_idempotency_key services "b" "shop" claimed_again).0 ≡ done none)
    × ((run_command services scope false "x" (Execution.returned empty_dict) claimed_again).1.outbox
        ≡ claimed_again.outbox)
unfolding exists
Run-once_example =
    Run-once services scope "shop" false "x" (Execution.returned empty_dict) refl refl retried

Run-closed_example :
    (exists (is_closed 0) claimed_again.outbox ≡ true)
    × ((rows : List OutboxRow) × ((poll worker_commands 5 claimed_again).0 ≡ done rows)
        × (exists (λ r. eqb r.id 0) rows ≡ false))
unfolding exists
Run-closed_example = Run-closed services 0 5 worker_commands refl refl retried

abbrev stuck : World
stuck = mailed OutboxStatus.in_progress (claim "x" false ∷ [])

reap_paired_worker_commands_outbox-clears_example :
    (k : ℕ) × (w' : World) × (reap_paired_worker_commands_outbox services stuck ≡ (done k, w'))
    × (k ≤ 3)
    × (k + count_stuck 15 w' ≤ count_stuck 15 stuck)
    × ((k ≡ 3) ⊎ (count_stuck 15 w' ≡ 0))
reap_paired_worker_commands_outbox-clears_example =
    reap_paired_worker_commands_outbox-clears services stuck

stuck-revived_example :
    let (polled, w') = poll worker_commands 5 (paired_round 15 stuck).1 in
    ((rows : List OutboxRow) × (polled ≡ done rows) × (exists (λ r. eqb r.id 0) rows ≡ true))
    × ((claim_idempotency_key services "b" "shop" w').0 ≡ done (some "u"))
unfolding oldest exists paired_round set_rows in_transaction ◌>>=◌ reads writes with_some pure now
    count_where update_where
stuck-revived_example =
    stuck-revived services 15 5 "b" "shop" (command_row OutboxStatus.in_progress) stuck refl refl
      refl refl (omega arith)

abbrev undoing : Step
undoing = record (row "b" 0 StepStatus.compensating charge) { compensates_span_id = some "a" }

abbrev undo_tables : World
undo_tables = tables (undoing ∷ [])

unresolved_undo-IsDropped_example :
    Memᴰ (result_message scope EventType.step_failed (unresolved_output "no adapter")) (
      messages
        (run_command services scope true "x" (Execution.unresolved "no adapter") stuck).1.outbox)
    × IsDropped services
        (chain services 2)
        EventType.step_failed
        order
        (event EventType.step_failed "b")
        undo_tables
unfolding find_first exists find_step reads result_message
unresolved_undo-IsDropped_example =
    unresolved_undo-IsDropped services (chain services 2) scope "x" "no adapter" order undoing
      (event EventType.step_failed "b") stuck undo_tables refl refl refl refl

requeue_worker_outbox-waits_example :
    waits_for "shop" "b"
      (requeue_worker_outbox services "shop" "b" false (mailed OutboxStatus.failed [])).1
    ≡ true
unfolding requeue_worker_outbox stale_outbox_cutoff set_rows now ◌>>=◌ reads writes pure with_some
    find_first same_key
requeue_worker_outbox-waits_example =
    requeue_worker_outbox-waits services "shop" "b" false (mailed OutboxStatus.failed []) refl
