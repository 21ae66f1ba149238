-- ===== src/Prelude/Lists.antt =====
-- Searches and counts over lists, by Boolean tests that run.
use Prim.Native.Nat.{ℕ, zero, suc}
use mathlib.Core.Bool.{Bool, true, false, ◌||◌}
use mathlib.Core.Option.{Option, none, some}
use mathlib.Core.List.{List, [], ◌∷◌}
use warden_core.Prelude.Tests.{if◌then◌else◌}

module _ {ℓ} {A : Type ℓ} where
  abbrev pub length : List A → ℕ
  length [] = 0
  length (x ∷ xs) = suc (length xs)

  -- The first element that passes, as `.filter(…).first()` returns it.
  unfoldable pub find_first : (A → Bool) → List A → Option A
  find_first p [] = none
  find_first p (x ∷ xs) = if p x then some x else find_first p xs

  unfoldable pub exists : (A → Bool) → List A → Bool
  exists p [] = false
  exists p (x ∷ xs) = p x || exists p xs

  unfoldable pub keep : (A → Bool) → List A → List A
  keep p [] = []
  keep p (x ∷ xs) = let rest = keep p xs in if p x then x ∷ rest else rest

  -- `UPDATE … WHERE`: change the rows that pass.
  unfoldable pub update_where : (A → Bool) → (A → A) → List A → List A
  update_where p f [] = []
  update_where p f (x ∷ xs) = (if p x then f x else x) ∷ update_where p f xs

  unfoldable pub count_where : (A → Bool) → List A → ℕ
  count_where p [] = 0
  count_where p (x ∷ xs) = let rest = count_where p xs in if p x then suc rest else rest

  -- `SELECT … WHERE … LIMIT`: the first so many elements that pass.
  unfoldable pub select : (A → Bool) → ℕ → List A → List A
  select p n [] = []
  select p zero (x ∷ xs) = []
  select p (suc n) (x ∷ xs) = elim (p x) [ true ↦ x ∷ select p n xs | false ↦ select p (suc n) xs ]

  -- `DELETE … WHERE … LIMIT`: what is left without the first so many elements that pass.
  unfoldable pub drop_where : (A → Bool) → ℕ → List A → List A
  drop_where p n [] = []
  drop_where p zero (x ∷ xs) = x ∷ xs
  drop_where p (suc n) (x ∷ xs) = elim (p x) [
    | true ↦ drop_where p n xs
    | false ↦ x ∷ drop_where p (suc n) xs
  ]

  abbrev pub last? : List A → Option A
  last? [] = none
  last? (x ∷ []) = some x
  last? (x ∷ y ∷ ys) = last? (y ∷ ys)
