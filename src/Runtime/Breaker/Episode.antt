-- ===== src/Runtime/Breaker/Episode.antt =====
-- The breaker over every sequence of calls: its invariant, when it admits, opens and closes.
use redops.Base.{
  ℕ, ◌+◌, ◌≤◌, ◌<◌, ◌≡◌, Bool, true, ◌&&◌, ◌||◌, Option, none, some, List, [], ◌∷◌, ltb, leb,
  length, arith, Clock,
}
use redops.Runtime.Breaker.{
  closed, open_, is_open, is_half_open, is_closed, Config, Breaker, new, read_state, can_execute,
  acquire, release_probe, record_success, record_failure, reset, snapshot, trim, counted,
  release_if_current,
}

-- The methods, as requests.
pub data Request : Type 0 where
  to_read to_ask to_acquire to_reset to_snapshot : Request
  to_release : ℕ → Request
  success : Option ℕ → Request
  failure : Option ℕ → Request

unfoldable pub serve : Request → Clock → Breaker → Breaker
unfolding read_state can_execute acquire release_probe record_success record_failure reset snapshot
serve to_read now b = (read_state now b).0
serve to_ask now b = (can_execute now b).0
serve to_acquire now b = (acquire now b).0
serve to_reset now b = reset now b
serve to_snapshot now b = (snapshot now b).0
serve (to_release g) now b = release_probe g b
serve (success g) now b = record_success g now b
serve (failure g) now b = record_failure g now b

unfoldable pub serve_all : List (Request × Clock) → Breaker → Breaker
serve_all [] b = b
serve_all ((q, now) ∷ qs) b = serve_all qs (serve q now b)

-- What holds of a breaker between two calls.
pub record IsSound (b : Breaker) : Type 0 where
  pub slots : 0 < b.in_flight → is_half_open b.state ≡ true
  pub capped : b.in_flight ≤ b.config.half_open_max_calls
  pub bounded : length b.window ≤ b.config.failure_threshold
  pub shut :
      is_closed b.state ≡ true
      → 0 < b.config.failure_threshold
      → length b.window < b.config.failure_threshold

length-trim : (cap : ℕ) (ts : List ℕ) → length (trim cap ts) ≤ cap
unfolding trim
length-trim cap [] = omega arith
length-trim cap (t ∷ ts) = ground (arith, length-trim cap ts)

counted-bounded :
    (now : ℕ) (b : Breaker) → length (counted now b).window ≤ b.config.failure_threshold
unfolding counted
counted-bounded now b = length-trim _ _

pub serve-IsSound : (q : Request) (now : Clock) (b : Breaker) → IsSound b → IsSound (serve q now b)
unfolding serve
serve-IsSound (failure none) now b h = ground (arith, counted-bounded (now 0) b)
serve-IsSound (failure (some g)) now b h =
    ground (arith, counted-bounded (now 0) (release_if_current (some g) b))
serve-IsSound (success none) now b h = ground arith
serve-IsSound (success (some g)) now b h = ground arith
serve-IsSound q now b h = ground arith

-- From a sound breaker, every sequence of calls leads to a sound breaker: its slots are taken only in
-- HALF_OPEN and within their limit, and its window holds no more failures than the threshold, and fewer
-- while it is closed, unless the threshold is 0.
pub serve_all-IsSound :
    (qs : List (Request × Clock)) (b : Breaker) → IsSound b → IsSound (serve_all qs b)
unfolding serve_all
serve_all-IsSound [] b h = h
serve_all-IsSound ((q, now) ∷ qs) b h =
    serve_all-IsSound qs (serve q now b) (serve-IsSound q now b h)

pub new-IsSound : (c : Config) (now : ℕ) → IsSound (new c now)
unfolding new
new-IsSound c now = ground arith

-- The waiting time of an open breaker is over at the first reading of the clock.
abbrev pub has_waited : Clock → Breaker → Bool
has_waited now b = leb (b.metrics.last_state_change + b.config.recovery_timeout) (now 0)

-- `acquire` admits exactly: while closed; in HALF_OPEN while a slot is free; and while open once the
-- waiting time is over, if there are slots at all.
pub acquire_admits :
    (now : Clock) (b : Breaker)
    → (acquire now b).1.admitted ≡ (
        is_closed b.state
        || (is_half_open b.state && ltb b.in_flight b.config.half_open_max_calls)
        || (is_open b.state && has_waited now b && ltb 0 b.config.half_open_max_calls))
unfolding acquire
acquire_admits now b = ground arith

-- A success that is recorded while the breaker is open counts: once the waiting time is over, one
-- successful probe less than the success threshold asks for closes the breaker.
pub late_success_counts :
    (b : Breaker) (now now' now'' : Clock)
    → b.state ≡ open_
    → has_waited now' b ≡ true
    → 0 < b.config.half_open_max_calls
    → b.config.success_threshold ≡ b.metrics.consecutive_successes + 2
    → let late = record_success none now b in
      let (probing, ticket) = acquire now' late in
      (record_success (some ticket.generation) now'' probing).state ≡ closed
unfolding record_success acquire
late_success_counts b now now' now'' o w m t = ground arith
