-- ===== src/Prelude/Search.antt =====
-- How the searches of Prelude/Lists.antt see rows that were changed, added or dropped.
use Prim.Native.Nat.{ℕ, zero, suc}
use mathlib.Core.Path.{◌≡◌, refl, sym}
use mathlib.Core.Bool.{Bool, true, false}
use mathlib.Core.Option.{none, some}
use mathlib.Core.List.{List, [], ◌∷◌, ◌++◌, Memᴰ}
use Prim.Native.String.{String}
use text.Mathlib.Text.{◌==◌}
use text.Mathlib.TextEquality.{eq_iff}
use native.Mathlib.Omega.{arith}
use warden_core.Prelude.Tests.{if◌then◌else◌, is_some, Bool-cases}
use warden_core.Prelude.Lists.{find_first, exists, keep, update_where, drop_where}
use mathlib.Core.Logic.{inl, inr}

module _ {ℓ} {A : Type ℓ} (p q : A → Bool) where
  -- A change that the search does not look at leaves its hit in place, changed or not.
  pub find_first-update_where :
      (f : A → A) (same : (x : A) → p (f x) ≡ p x) (xs : List A) {x : A}
      → find_first p xs ≡ some x
      → find_first p (update_where q f xs) ≡ some (if q x then f x else x)
  unfolding find_first update_where
  find_first-update_where f same [] h = ground arith
  find_first-update_where f same (y ∷ ys) {x} h =
      ground (arith, same y, find_first-update_where f same ys {x = x})

module _ {ℓ} {A : Type ℓ} (p : A → Bool) where
  pub find_first-append :
      (xs ys : List A) {x : A} → find_first p xs ≡ some x → find_first p (xs ++ ys) ≡ some x
  unfolding find_first
  find_first-append [] ys h = ground arith
  find_first-append (z ∷ zs) ys {x} h = ground (arith, find_first-append zs ys {x = x})

  pub mem-keep : {x : A} (xs : List A) → p x ≡ true → Memᴰ x xs → Memᴰ x (keep p xs)
  unfolding keep
  mem-keep [] h m = elim m [ ]
  mem-keep (y ∷ ys) h (Memᴰ.head e) = rw (← e, h) (Memᴰ.head refl)
  mem-keep (y ∷ ys) h (Memᴰ.tail m) = elim (Bool-cases (p y)) [
    | inl t ↦ rw t (Memᴰ.tail (mem-keep ys h m))
    | inr f ↦ rw f (mem-keep ys h m)
  ]

  -- A test that passes somewhere still does where only rows are dropped that do not pass it.
  pub exists-keep :
      (q : A → Bool) (safe : (x : A) → p x ≡ true → q x ≡ true) (xs : List A)
      → exists p xs ≡ true
      → exists p (keep q xs) ≡ true
  unfolding exists keep
  exists-keep q safe [] h = h
  exists-keep q safe (x ∷ xs) h = ground (arith, safe x, exists-keep q safe xs)

module _ {ℓ} {A : Type ℓ} where
  pub mem-append_left : {x : A} (xs ys : List A) → Memᴰ x xs → Memᴰ x (xs ++ ys)
  mem-append_left [] ys m = elim m [ ]
  mem-append_left (z ∷ zs) ys (Memᴰ.head e) = Memᴰ.head e
  mem-append_left (z ∷ zs) ys (Memᴰ.tail m) = Memᴰ.tail (mem-append_left zs ys m)

module _ {ℓ} {A : Type ℓ} (p : A → Bool) where
  pub find_first-passes : (xs : List A) {x : A} → find_first p xs ≡ some x → p x ≡ true
  unfolding find_first
  find_first-passes [] h = ground arith
  find_first-passes (y ∷ ys) {x} h = ground (arith, find_first-passes ys {x = x})

module _ {ℓ} {A : Type ℓ} (p : A → Bool) where
  -- What fails everywhere fails where it is narrowed.
  pub exists-narrow :
      (q : A → Bool) (imp : (x : A) → q x ≡ true → p x ≡ true) (xs : List A)
      → exists p xs ≡ false
      → exists q xs ≡ false
  unfolding exists
  exists-narrow q imp [] h = h
  exists-narrow q imp (x ∷ xs) h = ground (arith, imp x, exists-narrow q imp xs)

  pub found-exists : (xs : List A) → is_some (find_first p xs) ≡ exists p xs
  unfolding find_first exists
  found-exists [] = refl
  found-exists (x ∷ xs) = ground (arith, found-exists xs)

  -- An element that passes, added where none did, is the one that is found.
  pub find_first-last :
      (x : A) (xs : List A)
      → p x ≡ true
      → exists p xs ≡ false
      → find_first p (xs ++ x ∷ []) ≡ some x
  unfolding find_first exists
  find_first-last x [] h k = rw h refl
  find_first-last x (y ∷ ys) h k = ground (arith, find_first-last x ys h)

  pub find_first-none : (xs : List A) → find_first p xs ≡ none → exists p xs ≡ false
  unfolding find_first exists
  find_first-none [] h = refl
  find_first-none (x ∷ xs) h = ground (arith, find_first-none xs)

  pub exists-widen :
      (q : A → Bool) (imp : (x : A) → p x ≡ true → q x ≡ true) (xs : List A)
      → exists p xs ≡ true
      → exists q xs ≡ true
  unfolding exists
  exists-widen q imp [] h = h
  exists-widen q imp (x ∷ xs) h = ground (arith, imp x, exists-widen q imp xs)

  -- An update that no element is picked for.
  pub update_where-none : (f : A → A) (xs : List A) → exists p xs ≡ false → update_where p f xs ≡ xs
  unfolding exists update_where
  update_where-none f [] h = refl
  update_where-none f (x ∷ xs) h =
      let here : p x ≡ false = ground arith in
      let later : exists p xs ≡ false = ground arith in rw (here, update_where-none f xs later) refl

  -- Elements that another test picks are still there when others are dropped.
  pub exists-drop_where :
      (q : A → Bool) (safe : (x : A) → q x ≡ true → p x ≡ true → false ≡ true) (n : ℕ) (xs : List A)
      → exists q xs ≡ true
      → exists q (drop_where p n xs) ≡ true
  unfolding exists drop_where
  exists-drop_where q safe n [] h = h
  exists-drop_where q safe zero (x ∷ xs) h = h
  exists-drop_where q safe (suc n) (x ∷ xs) h = elim (Bool-cases (p x)) [
    | inl t ↦ rw (drop_where, t) (exists-drop_where q safe n xs (ground (arith, safe x)))
    | inr f ↦ rw (drop_where, f) (ground (arith, exists-drop_where q safe (suc n) xs))
  ]

  pub exists-drop_where-false :
      (q : A → Bool) (n : ℕ) (xs : List A)
      → exists q xs ≡ false
      → exists q (drop_where p n xs) ≡ false
  unfolding exists drop_where
  exists-drop_where-false q n [] h = h
  exists-drop_where-false q zero (x ∷ xs) h = h
  exists-drop_where-false q (suc n) (x ∷ xs) h = elim (Bool-cases (p x)) [
    | inl t ↦ rw (drop_where, t) (exists-drop_where-false q n xs (ground arith))
    | inr f ↦ rw (drop_where, f) (ground (arith, exists-drop_where-false q (suc n) xs))
  ]

module _ {ℓ} {A : Type ℓ} (p q : A → Bool) (f : A → A) where
  -- A test that the change does not affect, and one that it can only bring about.
  pub exists-update_where :
      (same : (x : A) → p (f x) ≡ p x) (xs : List A) → exists p (update_where q f xs) ≡ exists p xs
  unfolding exists update_where
  exists-update_where same [] = refl
  exists-update_where same (x ∷ xs) = ground (arith, same x, exists-update_where same xs)

  pub exists-update_where_up :
      (up : (x : A) → p x ≡ true → p (f x) ≡ true) (xs : List A)
      → exists p xs ≡ true
      → exists p (update_where q f xs) ≡ true
  unfolding exists update_where
  exists-update_where_up up [] h = h
  exists-update_where_up up (x ∷ xs) h = ground (arith, up x, exists-update_where_up up xs)

-- Text that differs one way round differs the other way round.
pub eq_flip : (a b : String) → (b == a) ≡ false → (a == b) ≡ false
eq_flip a b h = elim (Bool-cases (a == b)) [
  | inl t ↦ let back : (b == a) ≡ true = (eq_iff b a).1 (sym ((eq_iff a b).0 t)) in ground arith
  | inr f ↦ f
]
