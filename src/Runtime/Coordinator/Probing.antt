-- ===== src/Runtime/Coordinator/Probing.antt =====
-- What `execute` leaves of the probe slots of the breaker.
use redops.Base.{
  ℕ, zero, suc, ◌+◌, ◌-◌, ◌≤◌, ◌<◌, ◌≡◌, Bool, true, false, Option, none, some, String, arith, inl,
  inr, if◌then◌else◌,
}
use redops.Runtime.Breaker.{
  Breaker, half_open, Admission, acquire, release_probe, record_success, record_failure,
}
use redops.Runtime.Limiter.{check}
use redops.Runtime.Limiter.Window.{admit}
use redops.Runtime.Coordinator.{
  Shared, World, ExecutionPolicy, Step, ends, again, Stop, limiter_broke, HandlerEnd, answers,
  fails, is_cancelled, conclude, count_failure, free_slot, attempt, Progress, loop, run, raises,
  execute,
}
use redops.Runtime.Coordinator.Attempts.{Step-cases, loop_ends, loop_again, after}
use redops.Runtime.Coordinator.Slots.{shared_of}

-- The limiter's error left the attempt.
unfoldable pub is_broken : Option Stop → Bool
is_broken (some (limiter_broke e)) = true
is_broken _ = false

stop_of : Step → Option Stop
stop_of (ends called s stop) = some stop
stop_of (again s) = none

acquire_reserves :
    (now : ℕ → ℕ) (b : Breaker)
    → let (b', a) = acquire now b in
      (a.reserved ≡ true → a.generation ≡ b'.generation)
      × (a.admitted ≡ false → a.reserved ≡ false)
      × (b'.in_flight ≤ b.in_flight + (if a.reserved then 1 else 0))
      × ((if a.reserved then 1 else 0) ≤ b'.in_flight)
unfolding acquire
acquire_reserves now b = ground arith

free_slot-breaker :
    (key : String) (slot : Bool) (s : Shared) → (free_slot key slot s).breaker ≡ s.breaker
unfolding free_slot
free_slot-breaker key slot s = ground arith

count_frees :
    (fatal : Bool) (a : Admission) (now : ℕ → ℕ) (s : Shared)
    → (a.reserved ≡ true → a.generation ≡ s.breaker.generation)
    → (count_failure fatal a now s).breaker.in_flight
      ≤ s.breaker.in_flight - (if a.reserved then 1 else 0)
unfolding count_failure release_probe record_failure
count_frees true a now s g = ground arith
count_frees false a now s g = ground arith

module _ (p : ExecutionPolicy) (w : World) (key : String) where
  conclude_frees :
      (i : ℕ) (a : Admission) (slot : Bool) (e : HandlerEnd) (s : Shared)
      → ((s : Shared) → (w.during_sleep i s).breaker ≡ s.breaker)
      → (a.reserved ≡ true → a.generation ≡ s.breaker.generation)
      → (shared_of (conclude p w key i a slot e s)).breaker.in_flight
        ≤ s.breaker.in_flight - (if a.reserved then 1 else 0)
  unfolding conclude shared_of release_probe record_success
  conclude_frees i a slot (answers r) s sleep g = ground arith
  conclude_frees i a slot (fails f) s sleep g = ground (
    arith,
    sleep (count_failure f.is_fatal a (w.breaker_clock i) (free_slot key slot s)),
    count_frees f.is_fatal a (w.breaker_clock i) (free_slot key slot s),
    free_slot-breaker key slot s,
  )
  conclude_frees i a slot is_cancelled s sleep g = ground arith

  attempt_frees :
      (i : ℕ) (s : Shared)
      → ((s : Shared) → (w.during_call i s).breaker ≡ s.breaker)
      → ((s : Shared) → (w.during_sleep i s).breaker ≡ s.breaker)
      → is_broken (stop_of (attempt p w key i s)) ≡ false
      → (shared_of (attempt p w key i s)).breaker.in_flight ≤ s.breaker.in_flight
  unfolding attempt shared_of stop_of is_broken release_probe
  attempt_frees i s call sleep h =
      let b = (acquire (w.acquire_clock i) s.breaker).0 in
      let a = (acquire (w.acquire_clock i) s.breaker).1 in
      let c = admit key (w.check_time i) (w.record_time i) s.limiter in
      let waiting : Shared = record { breaker = b; limiter = c.self } in
      let during : Shared = w.during_call i waiting in
      ground (
        arith,
        acquire_reserves (w.acquire_clock i) s.breaker,
        call waiting,
        conclude_frees i a true (w.handler i) during sleep,
        conclude_frees i a false (w.handler i) during sleep,
      )

  loop_frees :
      (n i : ℕ) (g : Progress)
      → ((i : ℕ) (s : Shared) → (w.during_call i s).breaker ≡ s.breaker)
      → ((i : ℕ) (s : Shared) → (w.during_sleep i s).breaker ≡ s.breaker)
      → is_broken (loop p w key n i g).stop ≡ false
      → (loop p w key n i g).shared.breaker.in_flight ≤ g.shared.breaker.in_flight
  unfolding loop shared_of stop_of is_broken
  loop_frees zero i g call sleep h = omega arith
  loop_frees (suc n) i g call sleep h = elim (Step-cases (attempt p w key i g.shared)) [
    | inl (called, s, stop, e) ↦ ground (
      arith,
      loop_ends p w key n i g called s stop e,
      attempt_frees i g.shared (call i) (sleep i),
    )
    | inr (s, e) ↦ ground (
      arith,
      loop_again p w key n i g s e,
      attempt_frees i g.shared (call i) (sleep i),
      loop_frees n (i + 1) (after p w key g s) call sleep,
    )
  ]

  -- However `execute` ends, except by an error of the limiter, it leaves no more probe slots taken than
  -- it found, as long as nobody else calls the breaker while it waits.
  pub execute_frees_probes :
      (s : Shared)
      → ((i : ℕ) (s : Shared) → (w.during_call i s).breaker ≡ s.breaker)
      → ((i : ℕ) (s : Shared) → (w.during_sleep i s).breaker ≡ s.breaker)
      → is_broken (run p w key s).stop ≡ false
      → (execute p w key s).0.breaker.in_flight ≤ s.breaker.in_flight
  unfolding execute run
  execute_frees_probes s call sleep h =
      loop_frees (suc p.retry.max_attempts) 0
        (record { shared = s; calls = 0; retries = 0; stop = none }) call sleep h

  -- With a limit of no requests a minute, a call that takes a free probe slot of a half open breaker
  -- raises, and keeps the slot.
  pub limiter_error_keeps_probe :
      (s : Shared)
      → s.breaker.state ≡ half_open
      → s.breaker.in_flight < s.breaker.config.half_open_max_calls
      → s.limiter.policy.requests_per_minute ≡ some 0
      → s.limiter.policy.concurrent_requests ≡ none
      → s.limiter.timestamps key ≡ none
      → w.timeout_now 0 ≤ w.start_time + p.request_timeout
      → ((execute p w key s).1 ≡ raises)
        × ((execute p w key s).0.breaker.in_flight ≡ s.breaker.in_flight + 1)
  unfolding execute run loop attempt acquire admit check
  limiter_error_keeps_probe s b f r c t h = ground arith
