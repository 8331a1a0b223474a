-- ===== src/Runtime/Limiter.antt =====
-- backend/app/providers/runtime/rate_limit/rate_limiter.py, `SlidingWindowRateLimiter`, and the part
-- of `RateLimitPolicy` that it reads. Times are clock readings in microseconds. A `dict` with
-- string keys that is never iterated over is a function; `none` is a missing key.
pub mod Window
use text.Mathlib.Text.{◌==◌ as str_eq}
use redops.Base.{
  ℕ, suc, ◌+◌, ◌-◌, String, Bool, true, false, Option, none, some, List, [], ◌∷◌, ◌++◌, ltb, leb,
  if◌then◌else◌, length, is_some, not, ◌&&◌, Call, return, raise,
}

-- `RateLimitPolicy`; the burst capacity and the algorithm are read nowhere in the limiter.
pub record Policy : Type 0 where
  pub requests_per_minute : Option ℕ
  pub tokens_per_minute : Option ℕ
  pub concurrent_requests : Option ℕ

unfoldable pub is_unlimited : Policy → Bool
is_unlimited p =
    not (is_some p.requests_per_minute)
    && not (is_some p.tokens_per_minute)
    && not (is_some p.concurrent_requests)

pub record CheckResult : Type 0 where
  pub allowed : Bool
  pub retry_after : ℕ
  pub current_usage : ℕ
  pub limit : ℕ
  pub remaining : ℕ

pub record Limiter : Type 0 where
  pub policy : Policy
  pub timestamps : String → Option (List ℕ)
  pub counts : String → Option ℕ

-- `timestamps[0]` on an empty deque.
pub data LimiterError : Type 0 where
  index_error : LimiterError

unfoldable pub new : Policy → Limiter
new p = record { policy = p; timestamps = λ k. none; counts = λ k. none }

-- `d[key] = v`, and `d.pop(key, None)` where `v` is `none`.
abbrev pub update : {V : Type 0} → (String → Option V) → String → Option V → String → Option V
update d key v k = if str_eq k key then v else d k

abbrev pub or_empty : Option (List ℕ) → List ℕ
or_empty none = []
or_empty (some ts) = ts

abbrev pub or_zero : Option ℕ → ℕ
or_zero none = 0
or_zero (some n) = n

-- One minute.
abbrev pub minute : ℕ
minute = 60_000_000

-- `while timestamps and timestamps[0] < window_start: timestamps.popleft()`
pop_old : ℕ → List ℕ → List ℕ
pop_old now [] = []
pop_old now (t ∷ ts) = let rest = pop_old now ts in if ltb (t + minute) now then rest else t ∷ ts

denied : ℕ → ℕ → ℕ → CheckResult
denied retry usage limit = record {
  allowed = false;
  retry_after = retry;
  current_usage = usage;
  limit = limit;
  remaining = 0;
}

-- The last `return` of `check`.
allowed_result : String → Limiter → CheckResult
allowed_result key l =
    let used = length (or_empty (l.timestamps key)) in
    record {
      allowed = true;
      retry_after = 0;
      current_usage = used;
      limit = or_zero l.policy.requests_per_minute;
      remaining = or_zero l.policy.requests_per_minute - used;
    }

-- The refusal when the window is full; `timestamps[0]` fails on an empty window.
full : ℕ → ℕ → List ℕ → Limiter → Call Limiter LimiterError CheckResult
unfolding denied
full now rpm [] l = raise l index_error
full now rpm (oldest ∷ ts) l = return l (denied (oldest + minute - now) (length (oldest ∷ ts)) rpm)

-- `if self._policy.requests_per_minute is not None:` and what follows.
check_window : String → ℕ → Option ℕ → Limiter → Call Limiter LimiterError CheckResult
unfolding pop_old allowed_result full
check_window key now none l = return l (allowed_result key l)
check_window key now (some rpm) l =
    let ts = pop_old now (or_empty (l.timestamps key)) in
    let l' = record l { timestamps = update l.timestamps key (some ts) } in
    if leb rpm (length ts) then full now rpm ts l' else return l' (allowed_result key l')

-- `if self._policy.concurrent_requests is not None:` and what follows.
check_concurrent : String → ℕ → Option ℕ → Limiter → Call Limiter LimiterError CheckResult
unfolding check_window denied
check_concurrent key now none l = check_window key now l.policy.requests_per_minute l
check_concurrent key now (some cap) l =
    let current = or_zero (l.counts key) in
    if leb cap current
    then return l (denied 0 current cap)
    else check_window key now l.policy.requests_per_minute l

unfoldable pub check : String → ℕ → Limiter → Call Limiter LimiterError CheckResult
unfolding is_unlimited check_concurrent
check key now l =
    if is_unlimited l.policy
    then return l
        (record { allowed = true; retry_after = 0; current_usage = 0; limit = 0; remaining = 0 })
    else check_concurrent key now l.policy.concurrent_requests l

unfoldable pub record_request : String → ℕ → Limiter → Limiter
record_request key now l = record l {
  timestamps = update l.timestamps key (some (or_empty (l.timestamps key) ++ (now ∷ [])));
}

at_capacity : Option ℕ → ℕ → Bool
at_capacity none current = false
at_capacity (some cap) current = leb cap current

unfoldable pub acquire_concurrent : String → Limiter → Limiter × Bool
unfolding at_capacity
acquire_concurrent key l =
    let current = or_zero (l.counts key) in
    if at_capacity l.policy.concurrent_requests current
    then (l, false)
    else (record l { counts = update l.counts key (some (current + 1)) }, true)

unfoldable pub release_concurrent : String → Limiter → Limiter
release_concurrent key l = record l {
  counts = update l.counts key (some (or_zero (l.counts key) - 1));
}

unfoldable pub reset : Option String → Limiter → Limiter
reset none l = record l { timestamps = λ k. none; counts = λ k. none }
reset (some key) l = record l {
  timestamps = update l.timestamps key none;
  counts = update l.counts key none;
}
