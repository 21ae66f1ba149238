-- ===== src/Retry.antt =====
-- common/retry.py: an operation is repeated on retryable exceptions, after random delays that may
-- grow. Times are counted in a small unit in place of floating seconds. What the operation does at
-- each attempt and the numbers that `random.uniform` draws are parameters.
use Prim.Native.Nat.{◌*◌, ◌^◌, min, max}
use warden_core.Prelude.{
  ℕ, zero, suc, ◌+◌, ◌-◌, Bool, Option, none, some, List, [], ◌∷◌, if◌then◌else◌,
}

pub data Attempt (A E : Type 0) : Type 0 where
  returned : A → Attempt A E
  threw : E → Attempt A E

-- The numbers of a call: `jitter n cap` is what `uniform(0, cap)` draws before the retry of number
-- `n`, and `hint_jitter n` what `uniform(0, _PROVIDER_HINT_JITTER_S)` draws there.
pub record Delays : Type 0 where
  pub base_delay : ℕ
  pub max_delay : ℕ
  pub jitter : ℕ → ℕ → ℕ
  pub hint_jitter : ℕ → ℕ

-- _jitter_delay_s
unfoldable pub jitter_delay : Delays → ℕ → ℕ
jitter_delay d attempt = d.jitter attempt (min d.max_delay (d.base_delay * 2 ^ attempt))

-- _compute_delay_s
unfoldable pub compute_delay : Delays → ℕ → Option ℕ → ℕ
compute_delay d attempt none = jitter_delay d attempt
compute_delay d attempt (some zero) = jitter_delay d attempt
compute_delay d attempt (some (suc s)) =
    min d.max_delay (max (jitter_delay d attempt) (suc s) + d.hint_jitter attempt)

-- What a call came to: the last attempt's outcome, and the delays that it slept, in order.
pub record Calls (A E : Type 0) : Type 0 where
  pub outcome : Attempt A E
  pub sleeps : List ℕ

module _ {A E : Type 0} (operation : ℕ → Attempt A E) (is_retryable : E → Bool)
    (suggested_delay : E → Option ℕ) (d : Delays) where
  -- the `except` clause, where `rest` stands for the attempts that follow, if there are any
  abbrev pub after_failure : ℕ → E → Option (Calls A E) → Calls A E
  after_failure attempt e none = record { outcome = threw e; sleeps = [] }
  after_failure attempt e (some rest) =
      if is_retryable e
      then record {
        outcome = rest.outcome;
        sleeps = compute_delay d (attempt - 1) (suggested_delay e) ∷ rest.sleeps;
      }
      else record { outcome = threw e; sleeps = [] }

  abbrev pub after_attempt : ℕ → Attempt A E → Option (Calls A E) → Calls A E
  after_attempt attempt (returned a) rest = record { outcome = returned a; sleeps = [] }
  after_attempt attempt (threw e) rest = after_failure attempt e rest

  -- the loop of retry_async, from one attempt on; `left` attempts may follow it
  unfoldable pub retry_from : ℕ → ℕ → Calls A E
  retry_from attempt zero = after_attempt attempt (operation attempt) none
  retry_from attempt (suc left) =
      let rest = retry_from (suc attempt) left in
      after_attempt attempt (operation attempt) (some rest)

  -- retry_async: `none` for the ValueError on a `max_attempts` below one
  unfoldable pub retry_async : ℕ → Option (Calls A E)
  retry_async zero = none
  retry_async (suc n) = some (retry_from 1 n)
