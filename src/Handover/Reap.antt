-- ===== src/Handover/Reap.antt =====
-- The paired reap of common/outbox_reap.py: a row that was in delivery for too long goes back to
-- waiting, and the unfinished claim on its command with it.
use warden_core.Prelude.{
  ℕ, zero, suc, ◌+◌, ◌≤◌, ◌<◌, ◌-◌, ◌≡◌, ◌⊎◌, refl, ◌∙◌, ap, Bool, true, false, not, ◌&&◌, Option,
  none, some, List, [], ◌∷◌, ◌==◌, eqb, ltb, exists, keep, update_where, count_where, arith, inl,
  inr, Bool-cases, Option-cases, if◌then◌else◌,
}
use warden_core.Model.{
  OutboxStatus, worker_commands, Key, event_key, text_key, OutboxRow, Claim, World, Env,
}
use warden_core.Tx.{Tx, done, pure, reads, writes, ◌>>=◌, ◌>>◌, with_some, skip, in_transaction}
use warden_core.Store.{now}
use warden_core.Delivery.Queue.{
  set_rows, is_stuck, stale_outbox_cutoff, earlier, oldest, is_unfinished_on, evict_claim, Round,
  stop, reset, paired_round, paired_rounds, reap_paired_worker_commands_outbox,
}

earlier-cases :
    (x : OutboxRow) (o : Option OutboxRow) (r : OutboxRow)
    → some (earlier x o) ≡ some r
    → (x ≡ r) ⊎ (o ≡ some r)
earlier-cases x none r h = inl (ground arith)
earlier-cases x (some q) r h = elim (Bool-cases (ltb q.updated_at x.updated_at)) [
  | inl t ↦ inr (ground arith)
  | inr f ↦ inl (ground arith)
]

oldest_split :
    (b : Bool) (x : OutboxRow) (o : Option OutboxRow) (r : OutboxRow)
    → (if b then some (earlier x o) else o) ≡ some r
    → ((b ≡ true) × (x ≡ r)) ⊎ (o ≡ some r)
oldest_split true x o r h = elim (earlier-cases x o r h) [
  | inl same ↦ inl (refl, same)
  | inr later ↦ inr later
]
oldest_split false x o r h = inr h

module _ (p : OutboxRow → Bool) where
  oldest-none : (rs : List OutboxRow) → oldest p rs ≡ none → count_where p rs ≡ 0
  unfolding oldest count_where
  oldest-none [] h = refl
  oldest-none (r ∷ rs) h = ground (arith, oldest-none rs)

  pub oldest-passes : (rs : List OutboxRow) {r : OutboxRow} → oldest p rs ≡ some r → p r ≡ true
  unfolding oldest
  oldest-passes [] h = ground arith
  oldest-passes (x ∷ xs) {r} h = elim (oldest_split (p x) x (oldest p xs) r h) [
    | inl (t, same) ↦ rw (← same) t
    | inr later ↦ oldest-passes xs {r = r} later
  ]

  pub oldest-exists :
      (q : OutboxRow → Bool) (rs : List OutboxRow) {r : OutboxRow}
      → oldest p rs ≡ some r
      → q r ≡ true
      → exists (λ x. p x && q x) rs ≡ true
  unfolding oldest exists
  oldest-exists q [] h k = ground arith
  oldest-exists q (x ∷ xs) {r} h k = elim (oldest_split (p x) x (oldest p xs) r h) [
    | inl (t, same) ↦ rw (t, ap q same ∙ k) refl
    | inr later ↦ let found = oldest-exists q xs {r = r} later k in ground arith
  ]

  module _ (q : OutboxRow → Bool) (f : OutboxRow → OutboxRow)
      (clears : (r : OutboxRow) → p (f r) ≡ false) where
    count-le : (rs : List OutboxRow) → count_where p (update_where q f rs) ≤ count_where p rs
    unfolding count_where update_where
    count-le [] = omega arith
    count-le (r ∷ rs) = ground (arith, clears r, count-le rs)

    count-lt :
        (rs : List OutboxRow)
        → exists (λ x. p x && q x) rs ≡ true
        → count_where p (update_where q f rs) < count_where p rs
    unfolding count_where update_where exists
    count-lt [] h = ground arith
    count-lt (r ∷ rs) h = ground (arith, clears r, count-lt rs, count-le rs)

-- The eviction of a claim only changes the claims.
evict-runs :
    {A : Type 0} (k : Key) (tail : Tx A) (w : World)
    → (cs : List Claim) × ((evict_claim k >> tail) w ≡ tail (record w { claims = cs }))
unfolding ◌>>=◌ skip pure writes
evict-runs (event_key t e i) tail w = (w.claims, refl)
evict-runs (text_key k) tail w = elim (Bool-cases (k == "")) [
  | inl empty ↦ (w.claims, rw empty refl)
  | inr full ↦ (keep (λ c. not (is_unfinished_on k c)) w.claims, rw full refl)
]

abbrev pub stuck_command : ℕ → OutboxRow → Bool
stuck_command cutoff = is_stuck worker_commands cutoff

abbrev pub count_stuck : ℕ → World → ℕ
count_stuck cutoff w = count_where (stuck_command cutoff) w.outbox

ends-suc : (k n : ℕ) (P : Type 0) → (k ≡ n) ⊎ P → (suc k ≡ suc n) ⊎ P
ends-suc k n P (inl e) = inl (ap suc e)
ends-suc k n P (inr h) = inr h

module _ (cutoff : ℕ) where
  pub paired_round-idle :
      (w : World)
      → oldest (stuck_command cutoff) w.outbox ≡ none
      → paired_round cutoff w ≡ (done stop, w)
  unfolding paired_round in_transaction ◌>>=◌ reads with_some pure
  paired_round-idle w h = rw h refl

  put_back : (c : OutboxRow) → Tx Round
  put_back c = do set_rows (λ r. eqb r.id c.id) OutboxStatus.pending; pure reset

  pub paired_round-resets :
      (c : OutboxRow) (w : World)
      → oldest (stuck_command cutoff) w.outbox ≡ some c
      → (w' : World) × (paired_round cutoff w ≡ (done reset, w'))
        × (w'.outbox
            ≡ update_where
                (λ r. eqb r.id c.id)
                (λ r. record r { status = OutboxStatus.pending; updated_at = w.now })
                w.outbox)
        × (w'.posted ≡ w.posted)
  unfolding paired_round put_back set_rows in_transaction ◌>>=◌ reads writes with_some pure now
  paired_round-resets c w h =
      let passes = oldest-passes (stuck_command cutoff) w.outbox h in
      let late : ltb c.updated_at cutoff ≡ true = ground arith in
      let (cs, e) = evict-runs c.message.key (put_back c) w in
      (
        record w {
          claims = cs;
          outbox =
              update_where (λ r. eqb r.id c.id)
                (λ r. record r { status = OutboxStatus.pending; updated_at = w.now }) w.outbox;
        },
        rw (h, late, e) refl,
        refl,
        refl,
      )

  -- A round that resets a row leaves fewer stuck rows.
  resets-fewer :
      (c : OutboxRow) (w : World) (w' : World)
      → oldest (stuck_command cutoff) w.outbox ≡ some c
      → w'.outbox
        ≡ update_where
            (λ r. eqb r.id c.id)
            (λ r. record r { status = OutboxStatus.pending; updated_at = w.now })
            w.outbox
      → count_stuck cutoff w' < count_stuck cutoff w
  resets-fewer c w w' h e = rw e (
      count-lt (stuck_command cutoff) (λ r. eqb r.id c.id) _ (λ r. ground arith) w.outbox
        (oldest-exists (stuck_command cutoff) (λ r. eqb r.id c.id) w.outbox h (ground arith)))

  -- The loop resets rows until its rounds are used up or no row is stuck.
  paired_rounds-progress :
      (n : ℕ) (w : World)
      → (k : ℕ) × (w' : World) × (paired_rounds cutoff n w ≡ (done k, w'))
        × (k ≤ n)
        × (k + count_stuck cutoff w' ≤ count_stuck cutoff w)
        × ((k ≡ n) ⊎ (count_stuck cutoff w' ≡ 0))
  unfolding paired_rounds ◌>>=◌ pure
  paired_rounds-progress zero w = (zero, w, refl, omega arith, omega arith, inl refl)
  paired_rounds-progress (suc n) w = elim (Option-cases (oldest (stuck_command cutoff) w.outbox)) [
    | inl idle ↦
        let clear = oldest-none (stuck_command cutoff) w.outbox idle in
        (zero, w, rw (paired_round-idle w idle) refl, omega arith, omega arith, inr clear)
    | inr (c, found) ↦
        let (w1, e, rows, same) = paired_round-resets c w found in
        let fewer = resets-fewer c w w1 found rows in
        let (k, w', e', le, sum, ends) = paired_rounds-progress n w1 in
        (suc k, w', rw (e, e') refl, omega arith, omega arith, ends-suc k n _ ends)
  ]

-- The paired reap always returns. It resets at most as many rows as its batch allows, each reset
-- leaves at least one stuck row fewer, and unless the batch is used up no row of the worker's topic
-- is stuck afterwards.
pub reap_paired_worker_commands_outbox-clears :
    (env : Env) (w : World)
    → let cutoff = w.now - env.outbox_stale_seconds in
      (k : ℕ) × (w' : World) × (reap_paired_worker_commands_outbox env w ≡ (done k, w'))
      × (k ≤ env.outbox_reap_batch_size)
      × (k + count_stuck cutoff w' ≤ count_stuck cutoff w)
      × ((k ≡ env.outbox_reap_batch_size) ⊎ (count_stuck cutoff w' ≡ 0))
unfolding reap_paired_worker_commands_outbox stale_outbox_cutoff now ◌>>=◌ reads pure
reap_paired_worker_commands_outbox-clears env w =
    paired_rounds-progress (w.now - env.outbox_stale_seconds) env.outbox_reap_batch_size w
