-- ===== src/Runtime/Coordinator.antt =====
-- backend/app/providers/runtime/execution/runtime_coordinator.py, `RuntimeCoordinator.execute`, and
-- the check of timeout/timeout_framework.py that it makes: the loop of attempts around one provider,
-- on the breaker and the limiter that all callers of the provider share. What happens outside, and
-- what the other callers do while this one waits, is a `World`, which answers by the attempt.
pub mod Attempts
pub mod Slots
pub mod Probing
mod Tests
use redops.Base.{
  ℕ, zero, suc, ◌+◌, ◌-◌, String, Bool, true, false, not, Option, none, some, ltb, if◌then◌else◌, ℤ,
  Clock, Result, ok, raised, Call,
}
use redops.Runtime.Breaker.{
  Breaker, Admission, acquire, release_probe, record_success, record_failure,
}
use redops.Runtime.Limiter.{Limiter, LimiterError, release_concurrent}
use redops.Runtime.Limiter.Window.{Admission as SlotAdmission, admit}
use redops.Runtime.Retry.{
  RetryPolicy, RetryContext, RetryDecision, OverflowError, evaluate, should_retry,
}

pub record Shared : Type 0 where
  pub breaker : Breaker
  pub limiter : Limiter

-- An exception: `retryable is False`, its code and its message.
pub record Failure : Type 0 where
  pub is_fatal : Bool
  pub error_code : String
  pub message : String

-- How the call of the provider ends: with an answer, with an `Exception` (an `ExecutionTimeoutError`
-- after `timeout_seconds` too), or with a cancellation.
pub data HandlerEnd : Type 0 where
  answers : String → HandlerEnd
  fails : Failure → HandlerEnd
  is_cancelled : HandlerEnd

pub record World : Type 0 where
  pub start_time : ℕ
  pub timeout_now : ℕ → ℕ
  pub acquire_clock : ℕ → Clock
  pub check_time : ℕ → ℕ
  pub record_time : ℕ → ℕ
  pub handler : ℕ → HandlerEnd
  -- what the other callers do to the shared state during the call, and during the sleep after it
  pub during_call : ℕ → Shared → Shared
  pub during_sleep : ℕ → Shared → Shared
  pub breaker_clock : ℕ → Clock
  pub retry_now : ℕ → ℕ
  pub uniform : ℕ → ℕ → ℤ
  pub sleep_cancelled : ℕ → Bool

-- The part of `ExecutionPolicy` that is read here. Its `rate_limit` is the policy of the limiter, since
-- `execute` has `get_rate_limiter` make the limiter with it; a limiter that a caller has made before
-- with another policy is not modelled.
pub record ExecutionPolicy : Type 0 where
  pub retry : RetryPolicy
  pub request_timeout : ℕ

-- Why the loop is left.
pub data Stop : Type 0 where
  timeout_exceeded : Stop
  circuit_open : Bool → Stop
  rate_denied : Stop
  limiter_broke : LimiterError → Stop
  evaluator_broke : OverflowError → Stop
  succeeded : String → Stop
  failed : Failure → Stop
  propagated : Stop

-- One attempt: it leaves the loop, having called the provider or not, or is followed by another.
pub data Step : Type 0 where
  ends : Bool → Shared → Stop → Step
  again : Shared → Step

-- `TimeoutEvaluator.check(start_time).is_expired`
is_expired : ExecutionPolicy → ℕ → ℕ → Bool
is_expired p start now = ltb p.request_timeout (now - start)

-- `probe_generation`
ticket : Admission → Option ℕ
ticket a = if a.reserved then some a.generation else none

free_slot : String → Bool → Shared → Shared
free_slot key slot s = if slot then record s { limiter = release_concurrent key s.limiter } else s

free_probe : Admission → Shared → Shared
free_probe a s =
    if a.reserved then record s { breaker = release_probe a.generation s.breaker } else s

-- What a failure tells the breaker.
count_failure : Bool → Admission → Clock → Shared → Shared
unfolding free_probe
count_failure true a now s = free_probe a s
count_failure false a now s = record s {
  breaker =
      if a.reserved
      then record_failure (some a.generation) now s.breaker
      else record_failure none now s.breaker;
}

module _ (p : ExecutionPolicy) (w : World) (key : String) where
  -- What follows from the evaluator's decision; its error leaves the method.
  follow : ℕ → Failure → Shared → Result OverflowError RetryDecision → Step
  follow i f s (raised e) = ends true s (evaluator_broke e)
  follow i f s (ok d) =
      if should_retry d
      then (if w.sleep_cancelled i
          then ends true (w.during_sleep i s) propagated
          else again (w.during_sleep i s))
      else ends true s (failed f)

  -- The decision after a failure that was counted.
  decide : ℕ → Failure → Shared → Step
  unfolding follow
  decide i f s =
      if f.is_fatal
      then ends true s (failed f)
      else follow i f s (
          evaluate (w.uniform i) p.retry (record {
            attempt = i;
            total_elapsed = w.retry_now i - w.start_time;
            last_error_code = f.error_code;
          }))

  -- The end of the call.
  conclude : ℕ → Admission → Bool → HandlerEnd → Shared → Step
  unfolding ticket free_slot free_probe count_failure decide
  conclude i a slot (answers r) s =
      ends true
        (free_slot key slot
          (record s { breaker = record_success (ticket a) (w.breaker_clock i) s.breaker }))
        (succeeded r)
  conclude i a slot (fails f) s =
      decide i f (count_failure f.is_fatal a (w.breaker_clock i) (free_slot key slot s))
  conclude i a slot is_cancelled s = ends true (free_slot key slot (free_probe a s)) propagated

  -- The attempt after the breaker has admitted it; `c` is the admission by the limiter. An error of the
  -- limiter leaves the method.
  limited : ℕ → Admission → Breaker → Call Limiter LimiterError SlotAdmission → Step
  unfolding free_probe conclude
  limited i a b c =
      let s : Shared = record { breaker = b; limiter = c.self } in
      elim c.result [
        | raised e ↦ ends false s (limiter_broke e)
        | ok r ↦
            if r.admitted
            then conclude i a r.slot (w.handler i) (w.during_call i s)
            else ends false (free_probe a s) rate_denied
      ]

  unfoldable pub attempt : ℕ → Shared → Step
  unfolding is_expired limited
  attempt i s =
      if is_expired p w.start_time (w.timeout_now i)
      then ends false s timeout_exceeded
      else (let (b, a) = acquire (w.acquire_clock i) s.breaker in
          if a.admitted
          then limited i a b (admit key (w.check_time i) (w.record_time i) s.limiter)
          else ends false (record s { breaker = b }) (circuit_open a.exhausted))

-- How the loop went: the calls of the provider, `total_retries`, and why it was left, if a `break`
-- left it.
pub record Progress : Type 0 where
  pub shared : Shared
  pub calls : ℕ
  pub retries : ℕ
  pub stop : Option Stop

module _ (p : ExecutionPolicy) (w : World) (key : String) where
  -- `for attempt in range(…)`, from attempt `i` on.
  unfoldable pub loop : ℕ → ℕ → Progress → Progress
  loop zero i g = g
  loop (suc n) i g = elim (attempt p w key i g.shared) [
    | ends called s stop ↦ record {
      shared = s;
      calls = if called then g.calls + 1 else g.calls;
      retries = g.retries;
      stop = some stop;
    }
    | again s ↦
        loop n (i + 1)
          (record { shared = s; calls = g.calls + 1; retries = g.retries + 1; stop = none })
  ]

  unfoldable pub run : Shared → Progress
  unfolding loop
  run s =
      loop (suc p.retry.max_attempts) 0 (record { shared = s; calls = 0; retries = 0; stop = none })

pub data CompletionStatus : Type 0 where
  success failure retry_exhausted : CompletionStatus

-- `RuntimeExecutionResult`, with what its telemetry says; the texts of errors and the latencies are
-- left out.
pub record ExecutionResult : Type 0 where
  pub is_success : Bool
  pub response : String
  pub status : CompletionStatus
  pub retry_count : ℕ
  pub rate_limited : Bool
  pub error_code : String

-- The method returns, or an error leaves it.
pub data Outcome : Type 0 where
  returns : ExecutionResult → Outcome
  raises : Outcome

unsuccessful : ℕ → Bool → String → Outcome
unsuccessful retries denied code = returns (record {
  is_success = false;
  response = "";
  status = if denied then failure else if ltb 0 retries then retry_exhausted else failure;
  retry_count = retries;
  rate_limited = denied;
  error_code = code;
})

outcome_of : ℕ → Option Stop → Outcome
unfolding unsuccessful
outcome_of n none = unsuccessful n false ""
outcome_of n (some timeout_exceeded) = unsuccessful n false ""
outcome_of n (some (circuit_open full)) = unsuccessful n false "CIRCUIT_BREAKER_OPEN"
outcome_of n (some rate_denied) = unsuccessful n true "RATE_LIMIT_EXCEEDED"
outcome_of n (some (limiter_broke e)) = raises
outcome_of n (some (evaluator_broke e)) = raises
outcome_of n (some (failed f)) = unsuccessful n false ""
outcome_of n (some propagated) = raises
outcome_of n (some (succeeded r)) = returns (record {
  is_success = true;
  response = r;
  status = success;
  retry_count = n;
  rate_limited = false;
  error_code = "";
})

-- `execute`
unfoldable pub execute : ExecutionPolicy → World → String → Shared → Shared × Outcome
unfolding run outcome_of
execute p w key s = let g = run p w key s in (g.shared, outcome_of g.retries g.stop)
