-- ===== src/Scheduling/Retrying.antt =====
-- The delays of `RetryPolicy.delay_for_attempt`.
use native.Mathlib.Nat.{mul-le-mul_left, pow-le-pow_right}
use redops.Base.{ℕ, ◌≤◌, arith}
use redops.Scheduling.{
  RetryStrategy, fixed, exponential, linear, RetryPolicy, raw_delay, delay_for_attempt,
}

raw_later :
    (s : RetryStrategy) (p : RetryPolicy) (i j : ℕ)
    → i ≤ j
    → raw_delay (record p { strategy = s }) i ≤ raw_delay (record p { strategy = s }) j
unfolding raw_delay
raw_later fixed p i j h = omega arith
raw_later exponential p i j h =
    mul-le-mul_left p.base_delay_seconds (pow-le-pow_right (omega arith) (omega arith))
raw_later linear p i j h = mul-le-mul_left p.base_delay_seconds h

-- The delay before a later attempt is no shorter, and no delay is longer than the longest, whatever the
-- strategy.
pub delay_grows :
    (p : RetryPolicy) (i j : ℕ)
    → i ≤ j
    → (delay_for_attempt p i ≤ delay_for_attempt p j)
      × (delay_for_attempt p j ≤ p.max_delay_seconds)
unfolding delay_for_attempt
delay_grows p i j h = ground (arith, raw_later p.strategy p i j h)
