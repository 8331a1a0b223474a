-- ===== src/Runtime/Tests.antt =====
-- The theorems on backend/app/providers/runtime, applied to concrete breakers and limiters.
use redops.Base.{
  ℕ, leb, ◌+◌, ◌≤◌, ◌≡◌, ◌⊎◌, refl, true, none, some, List, [], ◌∷◌, ltb, arith, if◌then◌else◌,
  Clock,
}
use redops.Runtime.Breaker.{closed, open_, is_half_open, Config, Breaker, new}
use redops.Runtime.Breaker.Episode.{
  Request, serve, serve_all, IsSound, serve_all-IsSound, new-IsSound,
}
use redops.Runtime.Breaker.Tripping.{fail_all, fail_all_trips}
use redops.Runtime.Breaker.Probes.{
  live, Traffic, admit, enter, call, fails, Reach, here, next, quiet, Reach-capped,
}
use redops.Runtime.Limiter.{
  Policy, new as new_limiter, check, record_request, acquire_concurrent, release_concurrent,
}
use redops.Runtime.Fallback.{FallbackEntry, FallbackChain, new as new_chain, is_exhausted}
use redops.Runtime.Fallback.Exhaustion.{capacity, fail_all as fail_failures, fail_all_exhausts}
use redops.Runtime.Limiter.Window.{
  admit as admit_request, attempt, Request as WindowRequest, attempts, releases,
  serve_all as serve_requests, recent,
}
use redops.Runtime.Limiter.Window.Bound.{fresh, window_bounded}

-- Two failures within a minute open the breaker for 30 s; then one probe at a time, and two successes
-- close it.
abbrev two_strikes : Config
two_strikes = record {
  failure_threshold = 2;
  recovery_timeout = 30_000_000;
  half_open_max_calls = 1;
  success_threshold = 2;
  failure_window = 60_000_000;
}

abbrev at : ℕ → Clock
at t i = t + i

abbrev opened : Breaker
opened = record {
  config = two_strikes;
  state = open_;
  metrics = record {
    failure_count = 2;
    success_count = 0;
    consecutive_successes = 0;
    last_failure_time = some 1_000_000;
    last_state_change = 1_000_000;
    total_rejected = 0;
  };
  window = [];
  generation = 1;
  in_flight = 0;
}

abbrev breaker_requests : List (Request × Clock)
breaker_requests =
    (Request.failure none, at 1_000_000)
    ∷ (Request.failure none, at 2_000_000)
    ∷ (Request.to_acquire, at 40_000_000)
    ∷ (Request.success (some 2), at 41_000_000)
    ∷ []

serve_all-IsSound_example : IsSound (serve_all breaker_requests (new two_strikes 0))
serve_all-IsSound_example =
    serve_all-IsSound breaker_requests (new two_strikes 0) (new-IsSound two_strikes 0)

fail_all_trips_example :
    (fail_all (1_000_000 ∷ 2_000_000 ∷ []) (new two_strikes 0)).state
    ≡ (if ltb 2 2 then closed else open_)
fail_all_trips_example =
    fail_all_trips two_strikes 0 0 (1_000_000 ∷ 2_000_000 ∷ [])
      ((omega arith, omega arith), ((omega arith, omega arith), tt)) (omega arith) (omega arith)

-- Two failures open the breaker, and a probe enters after 40 s.
abbrev probing : Traffic
probing = admit (at 40_000_000) (record {
  breaker =
      serve (Request.failure none) (at 2_000_000)
        (serve (Request.failure none) (at 1_000_000) (new two_strikes 0));
  tickets = [];
})

probing-Reach : Reach (quiet two_strikes 0) probing
probing-Reach =
    next
      (next (next here (call (Request.failure none) (at 1_000_000) fails))
        (call (Request.failure none) (at 2_000_000) fails))
      (enter (at 40_000_000))

Reach-capped_example :
    let probes = live probing.breaker.generation probing.tickets in
    (probes ≤ probing.breaker.config.half_open_max_calls)
    × ((probes ≡ 0) ⊎ (is_half_open probing.breaker.state ≡ true))
Reach-capped_example = Reach-capped two_strikes 0 probing probing-Reach

-- The probe of that example has taken the slot.
probing_live : live probing.breaker.generation probing.tickets ≡ 1
unfolding live admit serve new
probing_live = refl

-- Two requests a minute.
abbrev two_a_minute : Policy
two_a_minute = record {
  requests_per_minute = some 2;
  tokens_per_minute = none;
  concurrent_requests = some 1;
}

abbrev requests : List WindowRequest
requests =
    attempts 1_000_000 1_000_001
    ∷ releases
    ∷ attempts 2_000_000 2_000_001
    ∷ releases
    ∷ attempts 3_000_000 3_000_001
    ∷ []

window_bounded_example :
    recent 3_000_001 (serve_requests "key" requests (fresh two_a_minute)).log ≤ 2
window_bounded_example =
    window_bounded "key" 0 2 requests two_a_minute refl
      (omega arith, omega arith, (omega arith, omega arith, (omega arith, omega arith, tt)))

-- The third attempt is refused.
requests_log : (serve_requests "key" requests (fresh two_a_minute)).log ≡ 1_000_001 ∷ 2_000_001 ∷ []
unfolding serve_requests attempt release_concurrent admit_request check record_request
    acquire_concurrent new_limiter
requests_log = refl

-- Two providers, the second before the first.
abbrev two_providers : List FallbackEntry
two_providers =
    record { provider_name = "b"; model_id = "large"; priority = 2; max_retries = 1 }
    ∷ record { provider_name = "a"; model_id = "small"; priority = 1; max_retries = 2 }
    ∷ []

abbrev the_chain : FallbackChain
the_chain = record {
  entries =
      record { provider_name = "a"; model_id = "small"; priority = 1; max_retries = 2 }
      ∷ record { provider_name = "b"; model_id = "large"; priority = 2; max_retries = 1 }
      ∷ [];
  custom_selector = none;
  current_index = 0;
  attempt_counts = λ i. 0;
}

fail_all_exhausts_example :
    is_exhausted (fail_failures 3 the_chain) ≡ leb (capacity two_providers 0) 3
unfolding new_chain
fail_all_exhausts_example = fail_all_exhausts two_providers none the_chain 3 refl
