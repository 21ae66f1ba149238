-- ===== src/Examples/Requests.antt =====
-- Requests of operators and reviewers.
use warden_core.Prelude.{
  String, ◌≡◌, refl, Bool, true, false, some, none, [], ◌∷◌, exists, find_first,
}
use warden_core.Model.{OutboxStatus, SagaStatus, StepStatus, Step, Saga, World, Response}
use warden_core.Tx.{
  Outcome, raised, recovery_conflict, pure, reads, writes, ◌>>=◌, with_some, in_transaction,
}
use warden_core.Tx.Keeps.{Keeps}
use warden_core.Engine.Chain.{chain}
use warden_core.Ledger.Relation.{Extends}
use warden_core.Recovery.Idempotency.{
  Request, once_per_token, load_processed_operator_recovery, save_processed_operator_recovery,
  operator_recovery_request_fingerprint, operator_recovery_dedup_key,
}
use warden_core.Recovery.Claims.{load_saga_step_locked}
use warden_core.Recovery.Retry.{answer, execute_step_retry, execute_retry_forward}
use warden_core.Recovery.Decisions.{enqueue_human_decision}
use warden_core.Safeguards.Replay.{once_per_token-replayed}
use warden_core.Safeguards.Guards.{retries-wait}
use warden_core.Safeguards.Kept.{Recoverer, recover, recover-Extends}
use warden_core.Delivery.Queue.{set_rows}
use warden_core.Examples.Data.{services, shop, order, shipping, ship, tables}

abbrev ask : Bool → Request
ask force = record {
  namespace = "shop";
  recovery_kind = "retry-step";
  trace_id = "t";
  step_span_id = "b";
  recovery_token = some "token";
  force = force;
  allow_destructive = none;
}

abbrev reply : Response
reply = answer "scheduled" "b" "token"

abbrev asked : World
asked = (once_per_token services (ask false) "token" (pure reply) shop).1

once_per_token-replayed_example :
    once_per_token services (ask true) "token" (pure reply) asked
    ≡ (raised (recovery_conflict "recovery_token reused with different request parameters."), asked)
unfolding once_per_token load_processed_operator_recovery save_processed_operator_recovery
    operator_recovery_request_fingerprint operator_recovery_dedup_key in_transaction ◌>>=◌ reads
    writes with_some pure find_first exists
once_per_token-replayed_example =
    once_per_token-replayed services (ask false) (ask true) "token" "token" (pure reply)
      (pure reply) reply shop asked [] refl refl refl

abbrev parked : Saga
parked = record order { status = SagaStatus.awaiting_recovery }

abbrev failed_shipping : Step
failed_shipping = record shipping { status = StepStatus.failed }

abbrev parked_shop : World
parked_shop = record (tables (failed_shipping ∷ [])) { sagas = parked ∷ [] }

abbrev busy : World
busy = record shop {
  claims =
      record {
        idempotency_key = "b";
        namespace = "shop";
        claim_token = "x";
        result_emitted = false;
        created_at = 6;
      }
      ∷ [];
}

retries-wait_example :
    ((execute_step_retry services (chain services 2) "shop" "t" "b" "token" false true busy).1
      ≡ busy)
    × ((execute_retry_forward services (chain services 2) "shop" "t" "b" "token" false true busy).1
        ≡ busy)
unfolding load_saga_step_locked find_first reads ◌>>=◌ with_some pure
retries-wait_example =
    retries-wait services (chain services 2) "shop" "t" "b" "token" true order shipping _ busy refl
      refl (record { found = refl; unfinished = refl; fresh = refl })

recover-Extends_example :
    Keeps Extends
      (recover services (chain services 2) (Recoverer.retry_parked false true) "shop" "t" "b" none)
recover-Extends_example =
    recover-Extends services 2 (Recoverer.retry_parked false true) "shop" "t" "b" none

abbrev held_shipping : Step
held_shipping = record shipping {
  status = StepStatus.awaiting_human;
  spec = record ship { hitl_max_retries = some 1 };
  hitl_retry_count = 1;
}

abbrev held_shop : World
held_shop = tables (held_shipping ∷ [])

abbrev approved : World
approved = (enqueue_human_decision services "shop" "t" "b" "APPROVE" none none held_shop).1

-- The delivery of the decision failed since.
abbrev undelivered : World
undelivered = (set_rows (λ r. true) OutboxStatus.failed approved).1

abbrev reject : World → Outcome String × World
reject = enqueue_human_decision services "shop" "t" "b" "REJECT" none none
