-- ===== src/Runtime/Retry.antt =====
-- backend/app/providers/runtime/retry/retry_framework.py, with `RetryPolicy` of
-- policies/runtime_policies.py: whether a failed call is tried again, and after what delay. Seconds
-- are whole microseconds, and their products are exact; 2.0 ** attempt raises an OverflowError from
-- attempt 1024 on, as the code's float does. The random number of the jitter is a parameter.
pub mod Delay
use text.Mathlib.Text.{◌==◌ as str_eq}
use redops.Base.{
  ℕ, ◌+◌, ◌-◌, ◌*◌, ◌/◌, ◌^◌, String, Bool, true, false, not, ◌&&◌, Option, none, some, List, [],
  ◌∷◌, ltb, leb, min, if◌then◌else◌, any, is_empty, ℤ, pos, negsuc, Result, ok, raised,
}

pub data BackoffStrategy : Type 0 where
  fixed linear exponential : BackoffStrategy

pub record RetryPolicy : Type 0 where
  pub max_attempts : ℕ
  pub backoff_strategy : BackoffStrategy
  pub base_delay : ℕ
  pub max_delay : ℕ
  pub jitter : Bool
  pub retryable_error_codes : List String
  pub total_retry_budget : ℕ

-- `RetryPolicy.is_enabled`
unfoldable pub is_enabled : RetryPolicy → Bool
is_enabled p = ltb 0 p.max_attempts

pub data OverflowError : Type 0 where
  overflow : OverflowError

-- `base * (2.0**attempt)`
doubled : ℕ → ℕ → Result OverflowError ℕ
doubled base attempt = if ltb attempt 1024 then ok (base * 2 ^ attempt) else raised overflow

-- The delay before the cap.
grown : BackoffStrategy → ℕ → ℕ → Result OverflowError ℕ
unfolding doubled
grown fixed base attempt = ok base
grown linear base attempt = ok (base * (attempt + 1))
grown exponential base attempt = doubled base attempt

-- `RetryPolicy.delay_for_attempt`
unfoldable pub delay_for_attempt : RetryPolicy → ℕ → Result OverflowError ℕ
unfolding grown
delay_for_attempt p attempt = elim (grown p.backoff_strategy p.base_delay attempt) [
  | ok delay ↦ ok (min delay p.max_delay)
  | raised e ↦ raised e
]

-- `max(0.0, delay + u)`
shifted : ℕ → ℤ → ℕ
shifted delay (pos u) = delay + u
shifted delay (negsuc u) = delay - (u + 1)

-- `_calculate_delay`; `uniform r` is what `random.uniform(-r, r)` draws.
unfoldable pub calculate_delay : (ℕ → ℤ) → RetryPolicy → ℕ → Result OverflowError ℕ
unfolding grown shifted
calculate_delay uniform p attempt = elim (grown p.backoff_strategy p.base_delay attempt) [
  | ok long ↦
      let delay = min long p.max_delay in
      ok (if p.jitter then shifted delay (uniform (delay / 4)) else delay)
  | raised e ↦ raised e
]

pub record RetryContext : Type 0 where
  pub attempt : ℕ
  pub total_elapsed : ℕ
  pub last_error_code : String

-- The reason of a refusal, or the delay of a retry.
pub data RetryDecision : Type 0 where
  disabled attempts_reached budget_exhausted not_retryable : RetryDecision
  retry : ℕ → RetryDecision

is_nil : List String → Bool
is_nil [] = true
is_nil (c ∷ cs) = false

-- The condition on the error code.
excluded : List String → String → Bool
unfolding is_nil
excluded codes code = not (is_nil codes) && not (is_empty code) && not (any (str_eq code) codes)

-- `RetryEvaluator.evaluate`
unfoldable pub evaluate : (ℕ → ℤ) → RetryPolicy → RetryContext → Result OverflowError RetryDecision
unfolding is_enabled excluded
evaluate uniform p ctx =
    if not (is_enabled p)
    then ok disabled
    else if leb p.max_attempts ctx.attempt
    then ok attempts_reached
    else if leb p.total_retry_budget ctx.total_elapsed
    then ok budget_exhausted
    else if excluded p.retryable_error_codes ctx.last_error_code
    then ok not_retryable
    else elim (calculate_delay uniform p ctx.attempt) [
      | ok delay ↦ ok (retry delay)
      | raised e ↦ raised e
    ]

-- `decision.should_retry`
unfoldable pub should_retry : RetryDecision → Bool
should_retry (retry d) = true
should_retry _ = false
