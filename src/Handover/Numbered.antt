-- ===== src/Handover/Numbered.antt =====
-- Outbox rows are numbered upwards, so that a number stands for one row.
use warden_core.Prelude.{
  ℕ, zero, suc, ◌<◌, ◌≡◌, refl, ◌∙◌, sym, Bool, true, false, not, ◌&&◌, List, [], ◌∷◌, ◌++◌, eqb,
  leb, exists, update_where, select, arith, inl, inr, Bool-cases,
}
use mathlib.Core.Bool.{true≢false}
use warden_core.Prelude.Search.{exists-narrow}
use warden_core.Model.{OutboxStatus, OutboxRow, row_is_completed}

-- The numbers go up from `lo`, and stay below `hi`.
abbrev pub is_numbered : ℕ → ℕ → List OutboxRow → Bool
is_numbered lo hi [] = leb lo hi
is_numbered lo hi (r ∷ rs) = leb lo r.id && is_numbered (suc r.id) hi rs

abbrev pub is_closed : ℕ → OutboxRow → Bool
is_closed i r = eqb r.id i && row_is_completed r.status

abbrev pub with_status : OutboxStatus → ℕ → OutboxRow → OutboxRow
with_status s at r = record r { status = s; updated_at = at }

pub numbered-update :
    (p : OutboxRow → Bool) (s : OutboxStatus) (at lo hi : ℕ) (rs : List OutboxRow)
    → is_numbered lo hi (update_where p (with_status s at) rs) ≡ is_numbered lo hi rs
unfolding update_where
numbered-update p s at lo hi [] = refl
numbered-update p s at lo hi (r ∷ rs) = elim (Bool-cases (p r)) [
  | inl t ↦ rw (t, numbered-update p s at (suc r.id) hi rs) refl
  | inr f ↦ rw (f, numbered-update p s at (suc r.id) hi rs) refl
]

pub numbered-append :
    (row : OutboxRow) (lo hi : ℕ) (rs : List OutboxRow)
    → row.id ≡ hi
    → is_numbered lo hi rs ≡ true
    → is_numbered lo (suc hi) (rs ++ row ∷ []) ≡ true
numbered-append row lo hi [] e h = ground arith
numbered-append row lo hi (r ∷ rs) e h = ground (arith, numbered-append row (suc r.id) hi rs e)

absent :
    (i lo hi : ℕ) (rs : List OutboxRow)
    → i < lo
    → is_numbered lo hi rs ≡ true
    → exists (λ r. eqb r.id i) rs ≡ false
unfolding exists
absent i lo hi [] b h = refl
absent i lo hi (r ∷ rs) b h = ground (arith, absent i (suc r.id) hi rs)

-- A row that passes a test is the only one of its number.
pub one_row :
    (p : OutboxRow → Bool) (i lo hi : ℕ) (rs : List OutboxRow)
    → is_numbered lo hi rs ≡ true
    → exists (λ r. p r && eqb r.id i) rs ≡ true
    → exists (λ r. eqb r.id i && not (p r)) rs ≡ false
unfolding exists
one_row p i lo hi [] h e = refl
one_row p i lo hi (r ∷ rs) h e =
    let below : is_numbered (suc r.id) hi rs ≡ true = ground arith in
    elim (Bool-cases (eqb r.id i)) [
      | inl t ↦
          let gone : exists (λ q. eqb q.id i) rs ≡ false =
            absent i (suc r.id) hi rs (ground arith) below in
          let passing : exists (λ q. p q && eqb q.id i) rs ≡ false =
            exists-narrow (λ q. eqb q.id i) _ (λ q k. ground arith) rs gone in
          let failing : exists (λ q. eqb q.id i && not (p q)) rs ≡ false =
            exists-narrow (λ q. eqb q.id i) _ (λ q k. ground arith) rs gone in
          ground arith
      | inr f ↦ let later = one_row p i (suc r.id) hi rs below in ground arith
    ]

pub select-passes :
    (p : OutboxRow → Bool) (i n : ℕ) (rs : List OutboxRow)
    → exists (λ q. eqb q.id i) (select p n rs) ≡ true
    → exists (λ r. p r && eqb r.id i) rs ≡ true
unfolding exists select
select-passes p i n [] = λ h. h
select-passes p i zero (r ∷ rs) = λ h. ground arith
select-passes p i (suc n) (r ∷ rs) = elim (Bool-cases (p r)) [
  | inl t ↦ rw (select, t) (λ h. ground (arith, select-passes p i n rs))
  | inr f ↦ rw (select, f) (λ h. ground (arith, select-passes p i (suc n) rs))
]

-- A change that picks no closed row leaves it closed.
pub closed-update :
    (p : OutboxRow → Bool) (s : OutboxStatus) (at i : ℕ) (rs : List OutboxRow)
    → exists (λ r. p r && is_closed i r) rs ≡ false
    → exists (is_closed i) rs ≡ true
    → exists (is_closed i) (update_where p (with_status s at) rs) ≡ true
unfolding exists update_where
closed-update p s at i [] h c = c
closed-update p s at i (r ∷ rs) h c = ground (arith, closed-update p s at i rs)

pub exists-never :
    (q : OutboxRow → Bool) (never : (r : OutboxRow) → q r ≡ true → false ≡ true)
    (rs : List OutboxRow)
    → exists q rs ≡ false
unfolding exists
exists-never q never [] = refl
exists-never q never (r ∷ rs) = ground (arith, never r, exists-never q never rs)

-- A query for rows that are not completed picks no number of a closed row.
pub select-spares :
    (p : OutboxRow → Bool) (live : (r : OutboxRow) → p r ≡ true → row_is_completed r.status ≡ false)
    (i n lo hi : ℕ) (rs : List OutboxRow)
    → is_numbered lo hi rs ≡ true
    → exists (is_closed i) rs ≡ true
    → exists (λ q. eqb q.id i) (select p n rs) ≡ false
select-spares p live i n lo hi rs h c =
    elim (Bool-cases (exists (λ (q : OutboxRow). eqb q.id i) (select p n rs))) [
      | inl t ↦
          let other : exists (λ r. eqb r.id i && not (p r)) rs ≡ false =
            one_row p i lo hi rs h (select-passes p i n rs t) in
          let closed : exists (is_closed i) rs ≡ false =
            exists-narrow (λ r. eqb r.id i && not (p r)) (is_closed i)
              (λ r k. ground (arith, live r)) rs other in
          absurd (true≢false (sym c ∙ closed))
      | inr f ↦ f
    ]
