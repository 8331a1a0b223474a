-- ===== src/Runtime/Coordinator/Tests.antt =====
-- The theorems on the coordinator and on its retries, applied to a provider that fails twice.
use redops.Base.{
  ℕ, zero, suc, ◌+◌, ◌-◌, ◌*◌, ◌≤◌, ◌≡◌, refl, true, false, none, some, [], arith, pos,
}
use redops.Runtime.Breaker.{Breaker, closed, half_open, acquire, record_failure}
use redops.Runtime.Limiter.{
  Policy, Limiter, check, record_request, acquire_concurrent, release_concurrent,
}
use redops.Runtime.Limiter.Window.{admit}
use redops.Runtime.Retry.{
  RetryPolicy, exponential, delay_for_attempt, calculate_delay, evaluate, should_retry,
}
use redops.Runtime.Retry.Delay.{Paces, delay_for_attempt_bounds}
use redops.Runtime.Coordinator.{
  Shared, Failure, HandlerEnd, answers, fails, World, ExecutionPolicy, ExecutionResult, success,
  attempt, loop, run, execute,
}
use redops.Runtime.Coordinator.Attempts.{
  is_retryable, Bounded, run-Bounded, run_retryable, execute_answer,
}
use redops.Runtime.Coordinator.Slots.{taken, execute_returns_slots}
use redops.Runtime.Coordinator.Probing.{is_broken, execute_frees_probes}

abbrev the_retry : RetryPolicy
the_retry = record {
  max_attempts = 3;
  backoff_strategy = exponential;
  base_delay = 1_000_000;
  max_delay = 60_000_000;
  jitter = true;
  retryable_error_codes = [];
  total_retry_budget = 120_000_000;
}

abbrev the_policy : ExecutionPolicy
the_policy = record { retry = the_retry; request_timeout = 60_000_000 }

abbrev overloaded : Failure
overloaded = record { is_fatal = false; error_code = "OVERLOADED"; message = "try later" }

abbrev third_time : ℕ → HandlerEnd
third_time zero = fails overloaded
third_time (suc zero) = fails overloaded
third_time _ = answers "Paris"

abbrev quiet_world : World
quiet_world = record {
  start_time = 0;
  timeout_now = λ i. i * 2_000_000;
  acquire_clock = λ i j. i * 2_000_000 + j;
  check_time = λ i. i * 2_000_000;
  record_time = λ i. i * 2_000_000;
  handler = third_time;
  during_call = λ i s. s;
  during_sleep = λ i s. s;
  breaker_clock = λ i j. i * 2_000_000 + j;
  retry_now = λ i. i * 2_000_000;
  uniform = λ i r. pos r;
  sleep_cancelled = λ i. false;
}

abbrev the_breaker : Breaker
the_breaker = record {
  config = record {
    failure_threshold = 5;
    recovery_timeout = 30_000_000;
    half_open_max_calls = 2;
    success_threshold = 2;
    failure_window = 60_000_000;
  };
  state = closed;
  metrics = record {
    failure_count = 0;
    success_count = 0;
    consecutive_successes = 0;
    last_failure_time = none;
    last_state_change = 0;
    total_rejected = 0;
  };
  window = [];
  generation = 0;
  in_flight = 0;
}

abbrev limiter_of : Policy → Limiter
limiter_of p = record { policy = p; timestamps = λ k. none; counts = λ k. none }

abbrev idle : Shared
idle = record {
  breaker = the_breaker;
  limiter = limiter_of (record {
    requests_per_minute = some 10;
    tokens_per_minute = none;
    concurrent_requests = some 2;
  });
}

run-Bounded_example :
    Bounded the_policy quiet_world "openai" (run the_policy quiet_world "openai" idle)
run-Bounded_example = run-Bounded the_policy quiet_world "openai" idle

-- Three calls of the provider.
three_calls : (run the_policy quiet_world "openai" idle).calls ≡ 3
unfolding run loop attempt acquire admit check record_request acquire_concurrent record_failure
    calculate_delay evaluate should_retry release_concurrent
three_calls = refl

run_retryable_example : is_retryable (third_time 1) ≡ true
run_retryable_example =
    run_retryable the_policy quiet_world "openai" idle 1 (omega (arith, three_calls))

abbrev the_answer : ExecutionResult
the_answer = record {
  is_success = true;
  response = "Paris";
  status = success;
  retry_count = 2;
  rate_limited = false;
  error_code = "";
}

execute_answer_example :
    let k = (run the_policy quiet_world "openai" idle).calls in
    (third_time (k - 1) ≡ answers "Paris") × (k ≡ 3)
unfolding execute run loop attempt acquire admit check record_request acquire_concurrent
    record_failure calculate_delay evaluate should_retry release_concurrent
execute_answer_example = execute_answer the_policy quiet_world "openai" idle the_answer refl refl

execute_returns_slots_example :
    taken "openai" (execute the_policy quiet_world "openai" idle).0 ≡ taken "openai" idle
execute_returns_slots_example =
    execute_returns_slots the_policy quiet_world "openai" idle (λ i s. refl) (λ i s. refl)

execute_frees_probes_example :
    (execute the_policy quiet_world "openai" idle).0.breaker.in_flight ≤ idle.breaker.in_flight
unfolding run loop attempt acquire admit check record_request acquire_concurrent record_failure
    calculate_delay evaluate should_retry is_broken release_concurrent
execute_frees_probes_example =
    execute_frees_probes the_policy quiet_world "openai" idle (λ i s. refl) (λ i s. refl) refl

-- A half open breaker, and a limit of no requests.
abbrev probing : Shared
probing = record {
  breaker = record the_breaker { state = half_open; generation = 2 };
  limiter = limiter_of (record {
    requests_per_minute = some 0;
    tokens_per_minute = none;
    concurrent_requests = none;
  });
}

delay_for_attempt_bounds_example :
    Paces exponential 60_000_000 9 (delay_for_attempt the_retry 2) (delay_for_attempt the_retry 9)
delay_for_attempt_bounds_example = delay_for_attempt_bounds the_retry 2 9 (omega arith)
