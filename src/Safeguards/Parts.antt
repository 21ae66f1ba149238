-- ===== src/Safeguards/Parts.antt =====
-- The relation Extends (Ledger/Relation) for the parts of a recovery request: the replay by token, the
-- claims, and the command's outbox row.
use warden_core.Prelude.{ℕ, String, ◌≡◌, refl, Bool, Option, List, [], ◌∷◌, update_where, arith}
use warden_core.Model.{OutboxStatus, Step, OutboxRow, messages, Response, Recovery, World, Env}
use warden_core.Tx.{Tx, Error, writes}
use warden_core.Tx.Keeps.{Keeps}
use warden_core.Store.{step_of, saga_of, claimed}
use warden_core.Delivery.Claims.{stale_claim_cutoff}
use warden_core.Delivery.Queue.{set_rows, stale_outbox_cutoff}
use warden_core.Recovery.Idempotency.{
  Request, save_processed_operator_recovery, replay_or_conflict, once_per_token,
  with_operator_recovery_idempotency, token_or_fresh,
}
use warden_core.Recovery.Claims.{
  demand, load_saga_step_locked, enforce_commit_force_gating, handle_active_claim,
  requeue_worker_outbox,
}
use warden_core.Recovery.Retry.{reset_step_for_worker_retry}
use warden_core.Ledger.Relation.{Extends, SameStep-refl, SameSaga-refl}
use warden_core.Ledger.Primitives.{primitive_rules, Extends-Untouched}
use warden_core.Ledger.Steps.{Extends-clear}

pub messages-update :
    (p : OutboxRow → Bool) (s : OutboxStatus) (at : ℕ) (rs : List OutboxRow)
    → messages (update_where p (λ r. record r { status = s; updated_at = at }) rs) ≡ messages rs
unfolding update_where
messages-update p s at [] = refl
messages-update p s at (r ∷ rs) = ground (arith, messages-update p s at rs)

Extends-set_status :
    (p : OutboxRow → Bool) (s : OutboxStatus) (at : ℕ)
    → Keeps Extends (
        writes (λ w. record w {
          outbox = update_where p (λ r. record r { status = s; updated_at = at }) w.outbox;
        }))
unfolding writes step_of saga_of claimed
Extends-set_status p s at = record {
  at = λ w. record {
    steps = λ i r h. (r, h, SameStep-refl r);
    sagas = λ t q h. (q, h, SameSaga-refl q);
    commands = λ m c h. rw (messages-update p s at w.outbox) h;
    keys = λ k c h. h;
    outbox = λ h. rw (messages-update p s at w.outbox) h;
  };
}

Extends-set_rows : (p : OutboxRow → Bool) (s : OutboxStatus) → Keeps Extends (set_rows p s)
unfolding set_rows
Extends-set_rows p s = search (primitive_rules, Extends-set_status)

Extends-recoveries :
    (f : World → List Recovery) → Keeps Extends (writes (λ w. record w { recoveries = f w }))
unfolding writes
Extends-recoveries f = record { at = λ w. Extends-Untouched (refl, refl, refl, refl) }

Extends-save : (r : Recovery) → Keeps Extends (save_processed_operator_recovery r)
unfolding save_processed_operator_recovery
Extends-save r = search (primitive_rules, Extends-recoveries)

Extends-replay : (r : Recovery) (s : String) → Keeps Extends (replay_or_conflict r s)
unfolding replay_or_conflict
Extends-replay r s = search primitive_rules

Extends-once :
    (env : Env) (q : Request) (token : String) (apply : Tx Response)
    → Keeps Extends apply
    → Keeps Extends (once_per_token env q token apply)
unfolding once_per_token
Extends-once env q token apply k = search (primitive_rules, Extends-save, Extends-replay) depth 12

pub Extends-idempotency :
    (env : Env) (q : Request) (apply : Tx Response)
    → Keeps Extends apply
    → Keeps Extends (with_operator_recovery_idempotency env q apply)
unfolding with_operator_recovery_idempotency
Extends-idempotency env q apply k = search (primitive_rules, Extends-once) depth 12

pub Extends-token : (env : Env) (o : Option String) → Keeps Extends (token_or_fresh env o)
unfolding token_or_fresh
Extends-token env o = search primitive_rules depth 12

pub Extends-demand : (b : Bool) (e : Error) → Keeps Extends (demand b e)
Extends-demand b e = search primitive_rules

pub Extends-load :
    (namespace t span : String) → Keeps Extends (load_saga_step_locked namespace t span)
unfolding load_saga_step_locked
Extends-load namespace t span = search primitive_rules depth 12

pub Extends-gating :
    (step : Step) (force allow : Bool)
    → Keeps Extends (enforce_commit_force_gating step force allow)
unfolding enforce_commit_force_gating
Extends-gating step force allow = Extends-demand _ _

Extends-cutoff : (env : Env) → Keeps Extends (stale_claim_cutoff env)
unfolding stale_claim_cutoff
Extends-cutoff env = search primitive_rules

Extends-outbox_cutoff : (env : Env) → Keeps Extends (stale_outbox_cutoff env)
unfolding stale_outbox_cutoff
Extends-outbox_cutoff env = search primitive_rules

pub Extends-active :
    (env : Env) (k : String) (force : Bool) → Keeps Extends (handle_active_claim env k force)
unfolding handle_active_claim
Extends-active env k force = search (primitive_rules, Extends-cutoff) depth 12

pub Extends-requeue :
    (env : Env) (namespace k : String) (force : Bool)
    → Keeps Extends (requeue_worker_outbox env namespace k force)
unfolding requeue_worker_outbox
Extends-requeue env namespace k force =
    search (primitive_rules, Extends-outbox_cutoff, Extends-set_rows) depth 12

pub Extends-reset :
    (env : Env) (t span : String) → Keeps Extends (reset_step_for_worker_retry env t span)
unfolding reset_step_for_worker_retry
Extends-reset env t span = search (primitive_rules, Extends-clear) depth 16
