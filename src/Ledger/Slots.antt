-- ===== src/Ledger/Slots.antt =====
-- Outbox rows that differ in namespace, topic or key: adding a row, and dropping some.
use warden_core.Prelude.{
  ◌≡◌, refl, Bool, true, false, List, [], ◌∷◌, ◌++◌, exists, keep, arith, inl, inr, Bool-cases,
}
use warden_core.Model.{Message, OutboxRow, messages}
use warden_core.Store.{same_slot}
use warden_core.Ledger.Relation.{is_unique_outbox}

module _ (p : Message → Bool) where
  exists-append_false :
      (m : Message) (ms : List Message)
      → p m ≡ false
      → exists p ms ≡ false
      → exists p (ms ++ m ∷ []) ≡ false
  unfolding exists
  exists-append_false m [] h k = rw h refl
  exists-append_false m (x ∷ xs) h k = ground (arith, exists-append_false m xs)

  exists-keep-false :
      (q : Message → Bool) (ms : List Message) → exists p ms ≡ false → exists p (keep q ms) ≡ false
  unfolding exists keep
  exists-keep-false q [] h = h
  exists-keep-false q (x ∷ xs) h = ground (arith, exists-keep-false q xs)

-- A row that no row of the outbox clashes with keeps the rows apart.
pub unique-append :
    (m : Message) (ms : List Message)
    → exists (same_slot m) ms ≡ false
    → is_unique_outbox ms ≡ true
    → is_unique_outbox (ms ++ m ∷ []) ≡ true
unfolding exists
unique-append m [] h u = refl
unique-append m (x ∷ xs) h u =
    let here : same_slot m x ≡ false = ground arith in
    let later : exists (same_slot m) xs ≡ false = ground arith in
    let apart : exists (λ n. same_slot n x) xs ≡ false = ground arith in
    let below : is_unique_outbox xs ≡ true = ground arith in
    rw (exists-append_false (λ n. same_slot n x) m xs here apart, unique-append m xs later below)
      refl

pub unique-keep :
    (q : Message → Bool) (ms : List Message)
    → is_unique_outbox ms ≡ true
    → is_unique_outbox (keep q ms) ≡ true
unfolding keep
unique-keep q [] u = u
unique-keep q (x ∷ xs) u =
    let apart : exists (λ n. same_slot n x) xs ≡ false = ground arith in
    let below : is_unique_outbox xs ≡ true = ground arith in
    elim (Bool-cases (q x)) [
      | inl t ↦
          rw (t, exists-keep-false (λ n. same_slot n x) q xs apart, unique-keep q xs below) refl
      | inr f ↦ rw f (unique-keep q xs below)
    ]

pub messages-append :
    (rs : List OutboxRow) (r : OutboxRow) → messages (rs ++ r ∷ []) ≡ messages rs ++ r.message ∷ []
messages-append [] r = refl
messages-append (q ∷ qs) r = rw (messages-append qs r) refl

pub messages-keep :
    (p : Message → Bool) (rs : List OutboxRow)
    → messages (keep (λ r. p r.message) rs) ≡ keep p (messages rs)
unfolding keep
messages-keep p [] = refl
messages-keep p (r ∷ rs) = ground (arith, messages-keep p rs)
