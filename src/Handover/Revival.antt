-- ===== src/Handover/Revival.antt =====
-- The delivery of a command whose worker died: the reap, the next poll, and the next claim.
use warden_core.Prelude.{
  ℕ, zero, suc, ◌≤◌, String, ◌≡◌, refl, ◌∙◌, ap, Bool, true, false, not, ◌&&◌, some, List, [], ◌∷◌,
  ◌==◌, eqb, exists, keep, update_where, count_where, select, arith, ltb, inl, inr, Bool-cases,
}
use warden_core.Model.{OutboxStatus, worker_commands, text_key, OutboxRow, Claim, World, Env}
use warden_core.Tx.{done, pure, reads, writes, ◌>>=◌, with_some, in_transaction, catch_integrity}
use warden_core.Store.{now, hook, draw}
use warden_core.Delivery.Claims.{claims_key, create_claim, try_claim, claim_idempotency_key}
use warden_core.Delivery.Queue.{set_rows, is_waiting, poll, is_unfinished_on, oldest, paired_round}
use warden_core.Handover.Claims.{is_finished}
use warden_core.Handover.Reap.{stuck_command, oldest-passes, oldest-exists, paired_round-resets}

module _ {ℓ} {A : Type ℓ} (p q : A → Bool) where
  count-positive : (xs : List A) → exists (λ x. p x && q x) xs ≡ true → 1 ≤ count_where p xs
  unfolding exists count_where
  count-positive [] h = ground arith
  count-positive (x ∷ xs) h = ground (arith, count-positive xs)

  -- A query whose limit covers every row that passes returns each of them.
  exists-select :
      (xs : List A) (n : ℕ)
      → count_where p xs ≤ n
      → exists (λ x. p x && q x) xs ≡ true
      → exists q (select p n xs) ≡ true
  unfolding exists select count_where
  exists-select [] n le h = ground arith
  exists-select (x ∷ xs) zero le h = absurd (omega (arith, le, count-positive (x ∷ xs) h))
  exists-select (x ∷ xs) (suc n) le h = elim (Bool-cases (p x)) [
    | inl t ↦ rw (select, t) (ground (arith, exists-select xs n))
    | inr f ↦ rw (select, f) (ground (arith, exists-select xs (suc n)))
  ]

claim-succeeds :
    (env : Env) (k namespace : String) (w : World)
    → exists (claims_key k) w.claims ≡ false
    → (claim_idempotency_key env k namespace w).0 ≡ done (some (env.uuid_hex w.drawn))
unfolding claim_idempotency_key try_claim draw now create_claim hook catch_integrity in_transaction
    ◌>>=◌ reads writes pure
claim-succeeds env k namespace w free = rw free refl

module _ (c : OutboxRow) (at : ℕ) where
  -- The rows that a reset puts back wait on their topic.
  resets-waiting :
      (cutoff : ℕ) (rs : List OutboxRow)
      → exists (λ r. stuck_command cutoff r && eqb r.id c.id) rs ≡ true
      → exists
          (λ r. is_waiting worker_commands r && eqb r.id c.id)
          (update_where
            (λ r. eqb r.id c.id)
            (λ r. record r { status = OutboxStatus.pending; updated_at = at })
            rs)
        ≡ true
  unfolding exists update_where
  resets-waiting cutoff [] h = ground arith
  resets-waiting cutoff (r ∷ rs) h = ground (arith, resets-waiting cutoff rs)

-- The claims that an eviction leaves on its key are finished ones.
evicted-free :
    (k : String) (cs : List Claim)
    → exists (is_finished k) cs ≡ false
    → exists (claims_key k) (keep (λ c. not (is_unfinished_on k c)) cs) ≡ false
unfolding exists keep
evicted-free k [] h = refl
evicted-free k (c ∷ cs) h = ground (arith, evicted-free k cs)

paired_round-evicts :
    (cutoff : ℕ) (k : String) (c : OutboxRow) (w : World)
    → oldest (stuck_command cutoff) w.outbox ≡ some c
    → c.message.key ≡ text_key k
    → (k == "") ≡ false
    → let w' = (paired_round cutoff w).1 in
      (w'.claims ≡ keep (λ d. not (is_unfinished_on k d)) w.claims) × (w'.drawn ≡ w.drawn)
unfolding paired_round set_rows in_transaction ◌>>=◌ reads writes with_some pure now
paired_round-evicts cutoff k c w h key full =
    let passes = oldest-passes (stuck_command cutoff) w.outbox h in
    let late : ltb c.updated_at cutoff ≡ true = ground arith in rw (h, late, key, full) (refl, refl)

-- The oldest row that is stuck in delivery on the worker's topic, with no result out under its key,
-- is revived by one round of the paired reap: a poll whose batch covers the waiting rows hands it
-- out again, and the worker that gets it is given the claim on its key.
pub stuck-revived :
    (env : Env) (cutoff n : ℕ) (k namespace : String) (c : OutboxRow) (w : World)
    → oldest (stuck_command cutoff) w.outbox ≡ some c
    → c.message.key ≡ text_key k
    → (k == "") ≡ false
    → exists (is_finished k) w.claims ≡ false
    → count_where (is_waiting worker_commands) (paired_round cutoff w).1.outbox ≤ n
    → let (polled, w') = poll worker_commands n (paired_round cutoff w).1 in
      ((rows : List OutboxRow) × (polled ≡ done rows) × (exists (λ r. eqb r.id c.id) rows ≡ true))
      × ((claim_idempotency_key env k namespace w').0 ≡ done (some (env.uuid_hex w.drawn)))
unfolding poll set_rows in_transaction ◌>>=◌ reads writes pure now
stuck-revived env cutoff n k namespace c w h key full unreported room =
    let (w1, e, rows, same) = paired_round-resets cutoff c w h in
    let stuck =
      oldest-exists (stuck_command cutoff) (λ r. eqb r.id c.id) w.outbox h (ground arith) in
    let waits : exists (λ r. is_waiting worker_commands r && eqb r.id c.id)
          (paired_round cutoff w).1.outbox
        ≡ true =
      rw (e, rows) (resets-waiting c w.now cutoff w.outbox stuck) in
    let (claims, drawn) = paired_round-evicts cutoff k c w h key full in
    let free : exists (claims_key k) (paired_round cutoff w).1.claims ≡ false =
      rw claims (evicted-free k w.claims unreported) in
    (
      (
        _,
        refl,
        exists-select (is_waiting worker_commands) (λ r. eqb r.id c.id)
            (paired_round cutoff w).1.outbox n room waits,
      ),
      claim-succeeds env k namespace _ free ∙ ap (λ m. done (some (env.uuid_hex m))) drawn,
    )
