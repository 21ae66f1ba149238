-- ===== src/Behaviour/Attempts.antt =====
-- How often common/retry.py calls its operation, and how long it sleeps.
use native.Mathlib.Nat.{min-le_left, le_trans}
use mathlib.Core.List.{Memᴰ}
use mathlib.Core.Bool.{true≢false}
use warden_core.Prelude.{
  ℕ, zero, suc, ◌<◌, ◌-◌, ◌+◌, ◌≤◌, ◌≡◌, refl, ◌∙◌, ap, sym, ◌⊎◌, Bool, true, false, not, Option,
  none, some, List, [], ◌∷◌, find_first, get_or, length, arith, inl, inr, Bool-cases,
}
use warden_core.Retry.{
  Attempt, returned, threw, Delays, jitter_delay, compute_delay, Calls, retry_from, retry_async,
}

Attempt-cases :
    {A E : Type 0} (o : Attempt A E) → ((a : A) × (o ≡ returned a)) ⊎ ((e : E) × (o ≡ threw e))
Attempt-cases (returned a) = inl (a, refl)
Attempt-cases (threw e) = inr (e, refl)

abbrev pub numbers : ℕ → ℕ → List ℕ
numbers a zero = []
numbers a (suc n) = a ∷ numbers (suc a) n

-- `random.uniform(0, cap)` draws a number from 0 to `cap`.
abbrev pub DrawsBelow : Delays → Type 0
DrawsBelow d = (n cap : ℕ) → d.jitter n cap ≤ cap

abbrev pub AllBelow : ℕ → List ℕ → Type 0
AllBelow m xs = (x : ℕ) → Memᴰ x xs → x ≤ m

jitter-le : (d : Delays) (n : ℕ) → DrawsBelow d → jitter_delay d n ≤ d.max_delay
unfolding jitter_delay
jitter-le d n draws = le_trans (draws n _) (min-le_left d.max_delay _)

delay-le : (d : Delays) (n : ℕ) (o : Option ℕ) → DrawsBelow d → compute_delay d n o ≤ d.max_delay
unfolding compute_delay
delay-le d n none draws = jitter-le d n draws
delay-le d n (some zero) draws = jitter-le d n draws
delay-le d n (some (suc s)) draws = min-le_left d.max_delay _

module _ {A E : Type 0} (operation : ℕ → Attempt A E) (is_retryable : E → Bool)
    (suggested_delay : E → Option ℕ) (d : Delays) where
  -- An attempt after which the call ends: it returned, or threw what is not retryable.
  abbrev pub is_final : Attempt A E → Bool
  is_final (returned a) = true
  is_final (threw e) = not (is_retryable e)

  abbrev pub settles : ℕ → Bool
  settles n = is_final (operation n)

  abbrev chosen : ℕ → ℕ → ℕ
  chosen a n = get_or (find_first settles (numbers a (suc n))) (a + n)

  -- The chosen attempt, where the first one settles the call and where it does not.
  chosen-first : (a n : ℕ) → settles a ≡ true → chosen a n ≡ a
  unfolding find_first
  chosen-first a n h = rw h refl

  chosen-later : (a n : ℕ) → settles a ≡ false → chosen a (suc n) ≡ chosen (suc a) n
  unfolding find_first
  chosen-later a n h = let shift : a + suc n ≡ suc a + n = omega arith in rw (h, shift) refl

  chosen-last : (a : ℕ) → settles a ≡ false → chosen a 0 ≡ a
  unfolding find_first
  chosen-last a h = let same : a + 0 ≡ a = omega arith in rw (h, same) refl

  abbrev calls_from : ℕ → ℕ → Calls A E
  calls_from = retry_from operation is_retryable suggested_delay d

  settles_threw : (a : ℕ) (x : E) → operation a ≡ threw x → settles a ≡ not (is_retryable x)
  settles_threw a x e = ap is_final e

  retryable_not : (x : E) (b : Bool) → not (is_retryable x) ≡ b → is_retryable x ≡ not b
  retryable_not x b h = ground arith

  stops : (a n : ℕ) → settles a ≡ true → (calls_from a n).outcome ≡ operation a
  unfolding retry_from
  stops a zero h = elim (Attempt-cases (operation a)) [
    | inl (x, e) ↦ rw e refl
    | inr (x, e) ↦ rw e refl
  ]
  stops a (suc n) h = elim (Attempt-cases (operation a)) [
    | inl (x, e) ↦ rw e refl
    | inr (x, e) ↦
        let final : is_retryable x ≡ false = retryable_not x true (sym (settles_threw a x e) ∙ h) in
        rw (e, final) refl
  ]

  goes_on :
      (a n : ℕ)
      → settles a ≡ false
      → (x : E) × ((calls_from a (suc n)).outcome ≡ (calls_from (suc a) n).outcome)
        × ((calls_from a (suc n)).sleeps
            ≡ compute_delay d (a - 1) (suggested_delay x) ∷ (calls_from (suc a) n).sleeps)
  unfolding retry_from
  goes_on a n h = elim (Attempt-cases (operation a)) [
    | inl (y, e) ↦ absurd (true≢false (sym (ap is_final e) ∙ h))
    | inr (x, e) ↦
        let again : is_retryable x ≡ true = retryable_not x false (sym (settles_threw a x e) ∙ h) in
        (x, rw (e, again) refl, rw (e, again) refl)
  ]

  ends : (a : ℕ) → ((calls_from a 0).outcome ≡ operation a) × ((calls_from a 0).sleeps ≡ [])
  unfolding retry_from
  ends a = elim (Attempt-cases (operation a)) [
    | inl (y, e) ↦ (rw e refl, rw e refl)
    | inr (x, e) ↦ (rw e refl, rw e refl)
  ]

  no_sleep : (a n : ℕ) → settles a ≡ true → (calls_from a n).sleeps ≡ []
  unfolding retry_from
  no_sleep a zero h = (ends a).1
  no_sleep a (suc n) h = elim (Attempt-cases (operation a)) [
    | inl (y, e) ↦ rw e refl
    | inr (x, e) ↦
        let final : is_retryable x ≡ false = retryable_not x true (sym (settles_threw a x e) ∙ h) in
        rw (e, final) refl
  ]

  outcome_from : (a n : ℕ) → (calls_from a n).outcome ≡ operation (chosen a n)
  outcome_from a zero = elim (Bool-cases (settles a)) [
    | inl t ↦ (ends a).0 ∙ ap operation (sym (chosen-first a 0 t))
    | inr f ↦ (ends a).0 ∙ ap operation (sym (chosen-last a f))
  ]
  outcome_from a (suc n) = elim (Bool-cases (settles a)) [
    | inl t ↦ stops a (suc n) t ∙ ap operation (sym (chosen-first a (suc n) t))
    | inr f ↦
        let (x, same, slept) = goes_on a n f in
        same ∙ outcome_from (suc a) n ∙ ap operation (sym (chosen-later a n f))
  ]

  abbrev Slept : ℕ → List ℕ → Type 0
  Slept n xs = (length xs ≤ n) × AllBelow d.max_delay xs

  sleeps_from : DrawsBelow d → (a n : ℕ) → Slept n (calls_from a n).sleeps
  sleeps_from draws a zero = rw (ends a).1 (omega arith, λ x m. elim m [ ])
  sleeps_from draws a (suc n) = elim (Bool-cases (settles a)) [
    | inl t ↦ rw (no_sleep a (suc n) t) (omega arith, λ x m. elim m [ ])
    | inr f ↦
        let (x, same, slept) = goes_on a n f in
        let (fewer, below) = sleeps_from draws (suc a) n in
        rw slept (
          omega arith,
          λ y m. elim m [
            | Memᴰ.head e ↦ rw e (delay-le d (a - 1) (suggested_delay x) draws)
            | Memᴰ.tail later ↦ below y later
          ],
        )
  ]

  -- With at least one attempt allowed, retry_async returns or throws what the operation did at the
  -- first attempt that returned or threw what is not retryable, or at the last attempt allowed if
  -- there is none; and if each number that is drawn is at most its cap, then it sleeps fewer times
  -- than attempts are allowed, each time no longer than the limit on delays.
  pub retry_async-reference :
      (n : ℕ)
      → DrawsBelow d
      → (calls : Calls A E) × (retry_async operation is_retryable suggested_delay d (suc n)
          ≡ some calls)
        × (calls.outcome ≡ operation (get_or (find_first settles (numbers 1 (suc n))) (suc n)))
        × (length calls.sleeps < suc n)
        × AllBelow d.max_delay calls.sleeps
  unfolding retry_async
  retry_async-reference n draws =
      let last : 1 + n ≡ suc n = omega arith in
      let (fewer, below) = sleeps_from draws 1 n in
      (
        calls_from 1 n,
        refl,
        outcome_from 1 n
            ∙ ap (λ m. operation (get_or (find_first settles (numbers 1 (suc n))) m)) last,
        omega arith,
        below,
      )
