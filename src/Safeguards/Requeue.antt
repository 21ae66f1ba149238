-- ===== src/Safeguards/Requeue.antt =====
-- The requeue of a command's outbox row by a recovery (Recovery/Claims).
use warden_core.Prelude.{
  ℕ, ◌-◌, String, ◌≡◌, ◌⊎◌, refl, sym, ap, ◌∙◌, Option, none, Bool, true, false, ◌&&◌, ◌||◌, some,
  List, [], ◌∷◌, eqb, ltb, exists, find_first, update_where, arith, inl, inr, Bool-cases,
  Option-cases, if◌then◌else◌,
}
use mathlib.Core.Bool.{true≢false}
use warden_core.Model.{OutboxStatus, OutboxRow, World, Env, row_is_pending}
use warden_core.Tx.{Outcome, raised, done, pure, reads, writes, ◌>>=◌, with_some}
use warden_core.Store.{now}
use warden_core.Delivery.Queue.{set_rows, stale_outbox_cutoff}
use warden_core.Recovery.Claims.{is_command_row, may_requeue, requeue_worker_outbox}

found_split :
    (b : Bool) (r : OutboxRow) (o : Option OutboxRow) (row : OutboxRow)
    → (if b then some r else o) ≡ some row
    → ((b ≡ true) × (r ≡ row)) ⊎ (o ≡ some row)
found_split true r o row h = inl (refl, ground arith)
found_split false r o row h = inr h

module _ (p : OutboxRow → Bool) where
  found_row :
      (q : OutboxRow → Bool) (rs : List OutboxRow) {row : OutboxRow}
      → find_first p rs ≡ some row
      → q row ≡ true
      → exists (λ r. p r && q r) rs ≡ true
  unfolding find_first exists
  found_row q [] h k = ground arith
  found_row q (r ∷ rs) {row} h k = elim (found_split (p r) r (find_first p rs) row h) [
    | inl (t, same) ↦ rw (t, ap q same ∙ k) refl
    | inr later ↦ let below = found_row q rs {row = row} later k in ground arith
  ]

  set_pending :
      (i at : ℕ)
      (kept : (r : OutboxRow) (s : OutboxStatus)
        → p (record r { status = s; updated_at = at }) ≡ p r)
      (rs : List OutboxRow)
      → exists (λ r. p r && eqb r.id i) rs ≡ true
      → exists
          (λ r. p r && row_is_pending r.status)
          (update_where
            (λ r. eqb r.id i)
            (λ r. record r { status = OutboxStatus.pending; updated_at = at })
            rs)
        ≡ true
  unfolding exists update_where
  set_pending i at kept [] h = ground arith
  set_pending i at kept (r ∷ rs) h =
      ground (arith, kept r OutboxStatus.pending, set_pending i at kept rs)

abbrev truth : Outcome Bool → Bool
truth (done b) = b
truth (raised e) = false

pending_told :
    (s : OutboxStatus)
    → (elim s [ OutboxStatus.pending ↦ true | _ ↦ false ]) ≡ true
    → row_is_pending s ≡ true
pending_told OutboxStatus.pending h = refl
pending_told OutboxStatus.in_progress h = h
pending_told OutboxStatus.completed h = h
pending_told OutboxStatus.failed h = h

abbrev pub waits_for : String → String → World → Bool
waits_for namespace k w =
    exists (λ r. is_command_row namespace k r && row_is_pending r.status) w.outbox

module _ (env : Env) (namespace k : String) (force : Bool) (w : World) where
  missing :
      find_first (is_command_row namespace k) w.outbox ≡ none
      → (requeue_worker_outbox env namespace k force w).0 ≡ done false
  unfolding requeue_worker_outbox ◌>>=◌ reads pure with_some
  missing h = rw h refl

  row_answered :
      (row : OutboxRow)
      → find_first (is_command_row namespace k) w.outbox ≡ some row
      → (requeue_worker_outbox env namespace k force w).0 ≡ done true
      → waits_for namespace k (requeue_worker_outbox env namespace k force w).1 ≡ true
  unfolding requeue_worker_outbox stale_outbox_cutoff set_rows now ◌>>=◌ reads writes pure with_some
  row_answered row found =
      elim (Bool-cases
        (may_requeue row.status (force || ltb row.updated_at (w.now - env.outbox_stale_seconds)))) [
          | inl late ↦
              rw (found, late)
                (λ d.
                  set_pending (is_command_row namespace k) row.id w.now (λ r s. refl) w.outbox
                    (found_row (is_command_row namespace k) (λ r. eqb r.id row.id) w.outbox found
                      (ground arith)))
          | inr early ↦
              rw (found, early)
                (λ d.
                  found_row (is_command_row namespace k) (λ r. row_is_pending r.status) w.outbox
                    found (pending_told row.status (ap truth d)))
        ]

  -- Where a recovery answers that the command of a key was requeued, the command's row waits for
  -- delivery.
  pub requeue_worker_outbox-waits :
      (requeue_worker_outbox env namespace k force w).0 ≡ done true
      → waits_for namespace k (requeue_worker_outbox env namespace k force w).1 ≡ true
  requeue_worker_outbox-waits d =
      elim (Option-cases (find_first (is_command_row namespace k) w.outbox)) [
        | inl gone ↦ absurd (true≢false (sym (ap truth (sym (missing gone) ∙ d))))
        | inr (row, found) ↦ row_answered row found d
      ]
