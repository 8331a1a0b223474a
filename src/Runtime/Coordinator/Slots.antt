-- ===== src/Runtime/Coordinator/Slots.antt =====
-- What `execute` leaves of the slots it takes: the concurrency slots of the limiter, and the probe
-- slots of the breaker.
use text.Mathlib.TextPositions.{eq_refl}
use redops.Base.{
  ℕ, zero, suc, ◌+◌, ◌≡◌, refl, ◌∙◌, Bool, true, false, ◌&&◌, none, String, arith, inl, inr, ◌-◌,
  if◌then◌else◌, Result, ok, raised,
}
use redops.Runtime.Breaker.{Admission, acquire}
use redops.Runtime.Limiter.{
  Limiter, LimiterError, or_zero, check, record_request, acquire_concurrent, release_concurrent,
}
use redops.Runtime.Limiter.Window.{Admission as SlotAdmission, admit}
use redops.Runtime.Retry.{evaluate, should_retry}
use redops.Runtime.Coordinator.{
  Shared, World, ExecutionPolicy, Step, ends, again, HandlerEnd, answers, fails, is_cancelled,
  conclude, count_failure, free_slot, attempt, Progress, loop, run, execute,
}
use redops.Runtime.Coordinator.Attempts.{Step-cases, loop_ends, loop_again, after}

unfoldable pub shared_of : Step → Shared
shared_of (ends called s stop) = s
shared_of (again s) = s

-- The concurrency slots that are taken under a key.
unfoldable pub taken : String → Shared → ℕ
taken key s = or_zero (s.limiter.counts key)

slot_of : Result LimiterError SlotAdmission → ℕ
slot_of (ok r) = if r.admitted && r.slot then 1 else 0
slot_of (raised e) = 0

-- An admission by the limiter takes the slot that it reports, and none where it denies.
admit_takes :
    (key : String) (t now : ℕ) (l : Limiter)
    → or_zero ((admit key t now l).self.counts key)
      ≡ or_zero (l.counts key) + slot_of (admit key t now l).result
unfolding admit slot_of check record_request acquire_concurrent
admit_takes key t now l = grind (arith, eq_refl)

release_returns :
    (key : String) (l : Limiter)
    → or_zero ((release_concurrent key l).counts key) ≡ or_zero (l.counts key) - 1
unfolding release_concurrent
release_returns key l = grind (arith, eq_refl)

module _ (p : ExecutionPolicy) (w : World) (key : String) where
  conclude_returns :
      (i : ℕ) (a : Admission) (slot : Bool) (e : HandlerEnd) (s : Shared)
      → ((s : Shared) → taken key (w.during_sleep i s) ≡ taken key s)
      → taken key (shared_of (conclude p w key i a slot e s))
        ≡ taken key s - (if slot then 1 else 0)
  unfolding conclude shared_of taken evaluate should_retry
  conclude_returns i a slot (answers r) s sleep = ground (arith, release_returns key s.limiter)
  conclude_returns i a slot (fails f) s sleep = ground (
    arith,
    release_returns key s.limiter,
    sleep (count_failure f.is_fatal a (w.breaker_clock i) (free_slot key slot s)),
  )
  conclude_returns i a slot is_cancelled s sleep = ground (arith, release_returns key s.limiter)

  attempt_returns :
      (i : ℕ) (s : Shared)
      → ((s : Shared) → taken key (w.during_call i s) ≡ taken key s)
      → ((s : Shared) → taken key (w.during_sleep i s) ≡ taken key s)
      → taken key (shared_of (attempt p w key i s)) ≡ taken key s
  unfolding attempt shared_of taken slot_of
  attempt_returns i s call sleep =
      let b = (acquire (w.acquire_clock i) s.breaker).0 in
      let a = (acquire (w.acquire_clock i) s.breaker).1 in
      let c = admit key (w.check_time i) (w.record_time i) s.limiter in
      let during : Shared = w.during_call i (record { breaker = b; limiter = c.self }) in
      ground (
        arith,
        admit_takes key (w.check_time i) (w.record_time i) s.limiter,
        call (record { breaker = b; limiter = c.self }),
        conclude_returns i a true (w.handler i) during sleep,
        conclude_returns i a false (w.handler i) during sleep,
      )

  -- Other callers return the concurrency slots that they take while this one waits.
  loop_returns :
      (n i : ℕ) (g : Progress)
      → ((i : ℕ) (s : Shared) → taken key (w.during_call i s) ≡ taken key s)
      → ((i : ℕ) (s : Shared) → taken key (w.during_sleep i s) ≡ taken key s)
      → taken key (loop p w key n i g).shared ≡ taken key g.shared
  unfolding loop
  loop_returns zero i g call sleep = refl
  loop_returns (suc n) i g call sleep =
      let here = attempt_returns i g.shared (call i) (sleep i) in
      elim (Step-cases (attempt p w key i g.shared)) [
        | inl (called, s, stop, e) ↦
            rw (loop_ends p w key n i g called s stop e) (unfold shared_of in rw e at here)
        | inr (s, e) ↦ rw (loop_again p w key n i g s e) (
            loop_returns n (i + 1) (after p w key g s) call sleep
            ∙ (unfold shared_of in rw e at here))
      ]

  -- Whether `execute` returns, raises or is cancelled, it leaves as many concurrency slots taken as it
  -- found, as long as the other callers return those that they take while it waits.
  pub execute_returns_slots :
      (s : Shared)
      → ((i : ℕ) (s : Shared) → taken key (w.during_call i s) ≡ taken key s)
      → ((i : ℕ) (s : Shared) → taken key (w.during_sleep i s) ≡ taken key s)
      → taken key (execute p w key s).0 ≡ taken key s
  unfolding execute run
  execute_returns_slots s call sleep =
      loop_returns (suc p.retry.max_attempts) 0
        (record { shared = s; calls = 0; retries = 0; stop = none }) call sleep
