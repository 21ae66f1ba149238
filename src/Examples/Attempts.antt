-- ===== src/Examples/Attempts.antt =====
-- An operation that fails twice before it returns.
use native.Mathlib.Nat.{le_refl}
use warden_core.Prelude.{ℕ, ◌<◌, ◌≡◌, true, some, find_first, get_or, length, eqb, if◌then◌else◌}
use warden_core.Retry.{Attempt, returned, threw, Delays, Calls, retry_async}
use warden_core.Behaviour.Attempts.{numbers, DrawsBelow, AllBelow, settles, retry_async-reference}

abbrev third_time : ℕ → Attempt ℕ ℕ
third_time n = if eqb n 3 then returned 7 else threw n

abbrev delays : Delays
delays = record { base_delay = 1; max_delay = 10; jitter = λ n cap. cap; hint_jitter = λ n. 1 }

draws_cap : DrawsBelow delays
draws_cap n cap = le_refl cap

retry_async-reference_example :
    (calls : Calls ℕ ℕ) × (retry_async third_time (λ e. true) (λ e. some 2) delays 5 ≡ some calls)
    × (calls.outcome
        ≡ third_time (
            get_or
              (find_first (settles third_time (λ e. true) (λ e. some 2) delays) (numbers 1 5))
              5))
    × (length calls.sleeps < 5)
    × AllBelow 10 calls.sleeps
retry_async-reference_example =
    retry_async-reference third_time (λ e. true) (λ e. some 2) delays 4 draws_cap
