-- ===== src/Handover/Claims.antt =====
-- The claims of workers by their keys, and finished claims (Delivery/Claims).
use warden_core.Prelude.{
  ℕ, zero, suc, String, ◌≡◌, refl, Bool, true, false, not, ◌&&◌, List, [], ◌∷◌, ◌++◌, ◌==◌, eq_iff,
  exists, keep, arith, inl, inr, Bool-cases, drop_where,
}
use warden_core.Prelude.Search.{eq_flip, exists-narrow, exists-drop_where-false}
use warden_core.Model.{Claim}
use warden_core.Delivery.Claims.{claims_key}

abbrev pub is_unfinished : String → Claim → Bool
is_unfinished k c = claims_key k c && not c.result_emitted

abbrev pub is_finished : String → Claim → Bool
is_finished k c = claims_key k c && c.result_emitted

abbrev pub is_unique_claims : List Claim → Bool
is_unique_claims [] = true
is_unique_claims (c ∷ cs) = not (exists (claims_key c.idempotency_key) cs) && is_unique_claims cs

-- On one key there is a finished claim or an unfinished one, not both.
pub finished-only :
    (k : String) (cs : List Claim)
    → is_unique_claims cs ≡ true
    → exists (is_finished k) cs ≡ true
    → exists (is_unfinished k) cs ≡ false
unfolding exists
finished-only k [] u h = refl
finished-only k (c ∷ cs) u h = elim (Bool-cases (claims_key k c)) [
  | inl t ↦
      let same : c.idempotency_key ≡ k = (eq_iff _ _).0 t in
      let others : exists (claims_key k) cs ≡ false = rw (← same) (ground arith) in
      let f : exists (is_finished k) cs ≡ false =
        exists-narrow (claims_key k) (is_finished k) (λ x e. ground arith) cs others in
      let g : exists (is_unfinished k) cs ≡ false =
        exists-narrow (claims_key k) (is_unfinished k) (λ x e. ground arith) cs others in
      ground arith
  | inr f ↦
      let below : is_unique_claims cs ≡ true = ground arith in
      ground (arith, finished-only k cs below)
]

exists-append_false :
    (p : Claim → Bool) (c : Claim) (cs : List Claim)
    → p c ≡ false
    → exists p cs ≡ false
    → exists p (cs ++ c ∷ []) ≡ false
unfolding exists
exists-append_false p c [] h k = rw h refl
exists-append_false p c (d ∷ ds) h k = ground (arith, exists-append_false p c ds)

pub unique-append :
    (c : Claim) (cs : List Claim)
    → exists (claims_key c.idempotency_key) cs ≡ false
    → is_unique_claims cs ≡ true
    → is_unique_claims (cs ++ c ∷ []) ≡ true
unfolding exists
unique-append c [] h u = refl
unique-append c (x ∷ xs) h u =
    let apart : (c.idempotency_key == x.idempotency_key) ≡ false =
      eq_flip c.idempotency_key x.idempotency_key (ground arith) in
    let last : exists (claims_key x.idempotency_key) (xs ++ c ∷ []) ≡ false =
      exists-append_false (claims_key x.idempotency_key) c xs apart (ground arith) in
    rw (last, unique-append c xs (ground arith) (ground arith)) refl

pub exists-append :
    (p : Claim → Bool) (cs ds : List Claim) → exists p cs ≡ true → exists p (cs ++ ds) ≡ true
unfolding exists
exists-append p [] ds h = ground arith
exists-append p (c ∷ cs) ds h = ground (arith, exists-append p cs ds)

module _ (q : Claim → Bool) where
  pub exists-keep-false :
      (p : Claim → Bool) (cs : List Claim) → exists p cs ≡ false → exists p (keep q cs) ≡ false
  unfolding exists keep
  exists-keep-false p [] h = h
  exists-keep-false p (c ∷ cs) h = ground (arith, exists-keep-false p cs)

  pub unique-keep :
      (cs : List Claim) → is_unique_claims cs ≡ true → is_unique_claims (keep q cs) ≡ true
  unfolding keep exists
  unique-keep [] u = u
  unique-keep (c ∷ cs) u =
      ground (arith, unique-keep cs, exists-keep-false (claims_key c.idempotency_key) cs)

  pub unique-drop :
      (n : ℕ) (cs : List Claim)
      → is_unique_claims cs ≡ true
      → is_unique_claims (drop_where q n cs) ≡ true
  unfolding drop_where exists
  unique-drop n [] u = u
  unique-drop zero (c ∷ cs) u = u
  unique-drop (suc n) (c ∷ cs) u =
      let below : is_unique_claims cs ≡ true = ground arith in
      let apart : exists (claims_key c.idempotency_key) cs ≡ false = ground arith in
      elim (Bool-cases (q c)) [
        | inl t ↦ rw (drop_where, t) (unique-drop n cs below)
        | inr f ↦
            rw
              (
                drop_where,
                f,
                exists-drop_where-false q (claims_key c.idempotency_key) (suc n) cs apart,
                unique-drop (suc n) cs below,
              )
              refl
      ]
