-- ===== src/Runtime/Breaker.antt =====
-- backend/app/providers/runtime/circuit_breaker/runtime_circuit_breaker.py: the circuit breaker, with
-- its probe slots and the generations that tell a late completion from a current one. Times are clock
-- readings in microseconds, and the configured seconds are whole microseconds.
pub mod Episode
pub mod Tripping
pub mod Probes
use redops.Base.{
  ℕ, ◌+◌, ◌-◌, Bool, true, false, not, ◌&&◌, ◌||◌, Option, none, some, List, [], ◌∷◌, ◌++◌, ltb,
  leb, ◌==◌, if◌then◌else◌, length, Clock,
}

pub data State : Type 0 where
  closed open_ half_open : State

abbrev pub is_open : State → Bool
is_open open_ = true
is_open _ = false

abbrev pub is_half_open : State → Bool
is_half_open half_open = true
is_half_open _ = false

abbrev pub is_closed : State → Bool
is_closed closed = true
is_closed _ = false

pub record Config : Type 0 where
  pub failure_threshold : ℕ
  pub recovery_timeout : ℕ
  pub half_open_max_calls : ℕ
  pub success_threshold : ℕ
  pub failure_window : ℕ

-- `CircuitBreakerMetrics`
pub record Metrics : Type 0 where
  pub failure_count : ℕ
  pub success_count : ℕ
  pub consecutive_successes : ℕ
  pub last_failure_time : Option ℕ
  pub last_state_change : ℕ
  pub total_rejected : ℕ

-- `CircuitBreakerMetrics.reset`; `total_rejected` is kept.
reset_metrics : ℕ → Metrics → Metrics
reset_metrics now m = record m {
  failure_count = 0;
  success_count = 0;
  consecutive_successes = 0;
  last_failure_time = none;
  last_state_change = now;
}

pub record Breaker : Type 0 where
  pub config : Config
  pub state : State
  pub metrics : Metrics
  pub window : List ℕ
  pub generation : ℕ
  pub in_flight : ℕ

-- `CircuitBreakerSnapshot`
pub record Snapshot : Type 0 where
  pub state : State
  pub failure_count : ℕ
  pub success_count : ℕ
  pub last_failure_time : Option ℕ
  pub last_state_change : ℕ
  pub total_rejected : ℕ

-- `ProbeAdmission`
pub record Admission : Type 0 where
  pub admitted : Bool
  pub generation : ℕ
  pub reserved : Bool
  pub exhausted : Bool

-- `__init__`
unfoldable pub new : Config → ℕ → Breaker
new c now = record {
  config = c;
  state = closed;
  metrics = record {
    failure_count = 0;
    success_count = 0;
    consecutive_successes = 0;
    last_failure_time = none;
    last_state_change = now;
    total_rejected = 0;
  };
  window = [];
  generation = 0;
  in_flight = 0;
}

-- `_transition_to`
transition_to : State → ℕ → Breaker → Breaker
transition_to s now b = record b {
  state = s;
  generation = b.generation + 1;
  metrics = record b.metrics { last_state_change = now };
  window = if is_open s || is_closed s then [] else b.window;
  in_flight = 0;
}

-- `_evaluate_state`: reads the clock once, and once more in the transition. `last_state_change` is
-- never `None`.
evaluate_state : Clock → Breaker → Breaker
unfolding transition_to
evaluate_state now b =
    if not (is_open b.state)
    then b
    else if leb (b.metrics.last_state_change + b.config.recovery_timeout) (now 0)
    then transition_to half_open (now 1) b
    else b

rejected : Breaker → Breaker
rejected b = record b {
  metrics = record b.metrics { total_rejected = b.metrics.total_rejected + 1 };
}

-- The property `state`, which moves the breaker too.
unfoldable pub read_state : Clock → Breaker → Breaker × State
unfolding evaluate_state
read_state now b = let b' = evaluate_state now b in (b', b'.state)

unfoldable pub can_execute : Clock → Breaker → Breaker × Bool
unfolding evaluate_state rejected
can_execute now b =
    let b' = evaluate_state now b in if is_open b'.state then (rejected b', false) else (b', true)

abbrev admission : Bool → Bool → Bool → Breaker → Admission
admission admitted reserved exhausted b = record {
  admitted = admitted;
  generation = b.generation;
  reserved = reserved;
  exhausted = exhausted;
}

-- `acquire` on the evaluated breaker.
admit : Breaker → Breaker × Admission
unfolding rejected
admit b =
    if is_open b.state
    then (rejected b, admission false false false b)
    else if is_half_open b.state
    then (if leb b.config.half_open_max_calls b.in_flight
        then (rejected b, admission false false true b)
        else (record b { in_flight = b.in_flight + 1 }, admission true true false b))
    else (b, admission true false false b)

unfoldable pub acquire : Clock → Breaker → Breaker × Admission
unfolding evaluate_state admit
acquire now b = admit (evaluate_state now b)

unfoldable pub release_probe : ℕ → Breaker → Breaker
release_probe g b =
    if g == b.generation && ltb 0 b.in_flight then record b { in_flight = b.in_flight - 1 } else b

-- `_is_stale`
is_stale : Option ℕ → Breaker → Bool
is_stale none b = false
is_stale (some g) b = not (g == b.generation)

-- `_release_if_current`
release_if_current : Option ℕ → Breaker → Breaker
release_if_current none b = b
release_if_current (some g) b =
    if g == b.generation && ltb 0 b.in_flight then record b { in_flight = b.in_flight - 1 } else b

-- `record_success` after the slot is released.
succeeded : Clock → Breaker → Breaker
unfolding transition_to reset_metrics
succeeded now b =
    let b' = record b {
      metrics = record b.metrics {
        success_count = b.metrics.success_count + 1;
        consecutive_successes = b.metrics.consecutive_successes + 1;
      };
    } in
    if is_half_open b'.state && leb b'.config.success_threshold b'.metrics.consecutive_successes
    then (let c = transition_to closed (now 0) b' in
        record c { metrics = reset_metrics (now 1) c.metrics })
    else b'

unfoldable pub record_success : Option ℕ → Clock → Breaker → Breaker
unfolding is_stale release_if_current succeeded
record_success g now b = if is_stale g b then b else succeeded now (release_if_current g b)

-- `while window and window[0] < window_start: window.popleft()`, where the start is `now - span`.
expire : ℕ → ℕ → List ℕ → List ℕ
expire now span [] = []
expire now span (t ∷ ts) =
    let rest = expire now span ts in if ltb (t + span) now then rest else t ∷ ts

-- `while len(window) > cap: window.popleft()`
trim : ℕ → List ℕ → List ℕ
trim cap [] = []
trim cap (t ∷ ts) = let rest = trim cap ts in if ltb cap (length (t ∷ ts)) then rest else t ∷ ts

-- The counting of `record_failure`, and its two loops.
counted : ℕ → Breaker → Breaker
counted now b = record b {
  metrics = record b.metrics {
    failure_count = b.metrics.failure_count + 1;
    last_failure_time = some now;
    consecutive_successes = 0;
  };
  window =
      trim b.config.failure_threshold (expire now b.config.failure_window b.window ++ (now ∷ []));
}

-- The decision of `record_failure`.
tripped : ℕ → Breaker → Breaker
unfolding transition_to
tripped now b =
    if is_half_open b.state
    then transition_to open_ now b
    else if is_closed b.state && leb b.config.failure_threshold (length b.window)
    then transition_to open_ now b
    else b

unfoldable pub record_failure : Option ℕ → Clock → Breaker → Breaker
unfolding is_stale release_if_current expire trim counted tripped
record_failure g now b =
    if is_stale g b then b else tripped (now 1) (counted (now 0) (release_if_current g b))

unfoldable pub reset : Clock → Breaker → Breaker
unfolding transition_to reset_metrics
reset now b =
    let c = transition_to closed (now 0) b in
    record c { metrics = reset_metrics (now 1) c.metrics; window = [] }

unfoldable pub snapshot : Clock → Breaker → Breaker × Snapshot
unfolding evaluate_state
snapshot now b =
    let b' = evaluate_state now b in
    (
      b',
      record {
        state = b'.state;
        failure_count = b'.metrics.failure_count;
        success_count = b'.metrics.success_count;
        last_failure_time = b'.metrics.last_failure_time;
        last_state_change = b'.metrics.last_state_change;
        total_rejected = b'.metrics.total_rejected;
      },
    )
