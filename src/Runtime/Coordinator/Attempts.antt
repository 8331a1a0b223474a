-- ===== src/Runtime/Coordinator/Attempts.antt =====
-- How often `execute` calls the provider, and what each call but the last came to.
use redops.Base.{
  ℕ, zero, suc, ◌+◌, ◌≤◌, ◌<◌, ◌≡◌, refl, Bool, true, false, Option, none, some, String, arith,
  is_some, ◌⊎◌, inl, inr, if◌then◌else◌, ◌-◌,
}
use redops.Runtime.Retry.{evaluate, should_retry}
use redops.Runtime.Coordinator.{
  Shared, HandlerEnd, answers, fails, World, ExecutionPolicy, Step, ends, again, Stop, succeeded,
  attempt, Progress, loop, run, ExecutionResult, returns, execute, outcome_of,
}

-- The call failed with an error that may be tried again.
unfoldable pub is_retryable : HandlerEnd → Bool
is_retryable (fails f) = if f.is_fatal then false else true
is_retryable _ = false

pub Step-cases :
    (st : Step)
    → ((called : Bool) × (s : Shared) × (stop : Stop) × (st ≡ ends called s stop))
      ⊎ ((s : Shared) × (st ≡ again s))
Step-cases (ends called s stop) = inl (called, s, stop, refl)
Step-cases (again s) = inr (s, refl)

answer_of : HandlerEnd → Option String
answer_of (answers r) = some r
answer_of _ = none

answered : Stop → Option String
answered (succeeded r) = some r
answered _ = none

module _ (p : ExecutionPolicy) (w : World) (key : String) where
  -- An attempt that leaves the loop has an answer exactly where it called the provider and got one.
  attempt_ends :
      (i : ℕ) (s s' : Shared) (called : Bool) (stop : Stop)
      → attempt p w key i s ≡ ends called s' stop
      → answered stop ≡ (if called then answer_of (w.handler i) else none)
  unfolding attempt answer_of answered
  attempt_ends i s s' called stop e = ground arith

  -- An attempt that another follows called the provider and failed, and was not the last.
  attempt_again :
      (i : ℕ) (s s' : Shared)
      → attempt p w key i s ≡ again s'
      → (is_retryable (w.handler i) ≡ true) × (i < p.retry.max_attempts)
  unfolding attempt is_retryable evaluate should_retry
  attempt_again i s s' e = ground arith

  -- What holds of the loop from attempt `i` on, at a call of the provider per attempt so far.
  abbrev pub Bounded : Progress → Type 0
  Bounded g =
      (g.calls ≤ p.retry.max_attempts + 1)
      × (g.retries ≤ p.retry.max_attempts)
      × (g.calls ≤ g.retries + 1)
      × (g.retries ≤ g.calls)
      × (is_some g.stop ≡ true)

  -- The progress after an attempt that leaves the loop, and after one that does not.
  abbrev pub left_after : Progress → Bool → Shared → Stop → Progress
  left_after g called s stop = record {
    shared = s;
    calls = if called then g.calls + 1 else g.calls;
    retries = g.retries;
    stop = some stop;
  }

  abbrev pub after : Progress → Shared → Progress
  after g s = record { shared = s; calls = g.calls + 1; retries = g.retries + 1; stop = none }

  pub loop_ends :
      (n i : ℕ) (g : Progress) (called : Bool) (s : Shared) (stop : Stop)
      → attempt p w key i g.shared ≡ ends called s stop
      → loop p w key (suc n) i g ≡ left_after g called s stop
  unfolding loop
  loop_ends n i g called s stop e = ground arith

  pub loop_again :
      (n i : ℕ) (g : Progress) (s : Shared)
      → attempt p w key i g.shared ≡ again s
      → loop p w key (suc n) i g ≡ loop p w key n (i + 1) (after g s)
  unfolding loop
  loop_again n i g s e = ground arith

  loop-Bounded :
      (n i : ℕ) (g : Progress)
      → g.calls ≡ i
      → g.retries ≡ i
      → n + i ≡ p.retry.max_attempts
      → Bounded (loop p w key (suc n) i g)
  loop-Bounded zero i g c r m = elim (Step-cases (attempt p w key i g.shared)) [
    | inl (called, s, stop, e) ↦ rw (loop_ends zero i g called s stop e) (ground arith)
    | inr (s, e) ↦ absurd (omega (arith, (attempt_again i g.shared s e).1))
  ]
  loop-Bounded (suc n) i g c r m = elim (Step-cases (attempt p w key i g.shared)) [
    | inl (called, s, stop, e) ↦ rw (loop_ends (suc n) i g called s stop e) (ground arith)
    | inr (s, e) ↦
        rw (loop_again (suc n) i g s e)
          (loop-Bounded n (i + 1) (after g s) (omega arith) (omega arith) (omega arith))
  ]

  -- The loop is left by one of its `break`s or by an error, never by the end of its range. It has then
  -- called the provider once more than it has retried, or as often, and no more often than the policy's
  -- `max_attempts` and once.
  pub run-Bounded : (s : Shared) → Bounded (run p w key s)
  unfolding run
  run-Bounded s =
      loop-Bounded p.retry.max_attempts 0
        (record { shared = s; calls = 0; retries = 0; stop = none }) refl refl (omega arith)

  loop_retryable :
      (n i j : ℕ) (g : Progress)
      → g.calls ≡ i
      → i ≤ j
      → j + 1 < (loop p w key n i g).calls
      → is_retryable (w.handler j) ≡ true
  unfolding loop
  loop_retryable zero i j g c l h = absurd (omega arith)
  loop_retryable (suc n) i j g c l h = elim (Step-cases (attempt p w key i g.shared)) [
    | inl (called, s, stop, e) ↦ absurd (ground (arith, loop_ends n i g called s stop e))
    | inr (s, e) ↦ ground (
      arith,
      attempt_again i g.shared s e,
      loop_again n i g s e,
      loop_retryable n (i + 1) j (after g s),
    )
  ]

  -- No call of the provider follows one that answered, was cancelled, or failed fatally.
  pub run_retryable :
      (s : Shared) (j : ℕ) → j + 1 < (run p w key s).calls → is_retryable (w.handler j) ≡ true
  unfolding run
  run_retryable s j h =
      loop_retryable (suc p.retry.max_attempts) 0 j
        (record { shared = s; calls = 0; retries = 0; stop = none }) refl (omega arith) h

  answer_of-some : (h : HandlerEnd) (r : String) → answer_of h ≡ some r → h ≡ answers r
  unfolding answer_of
  answer_of-some h r e = ground arith

  loop_answer :
      (n i : ℕ) (g : Progress) (r : String)
      → g.calls ≡ i
      → g.retries ≡ i
      → g.stop ≡ none
      → (loop p w key n i g).stop ≡ some (succeeded r)
      → let d = loop p w key n i g in
        (d.calls ≡ d.retries + 1) × (w.handler (d.calls - 1) ≡ answers r)
  unfolding loop
  loop_answer zero i g r c b z h = absurd cc
  loop_answer (suc n) i g r c b z h = elim (Step-cases (attempt p w key i g.shared)) [
    | inl (called, s, stop, e) ↦
        unfold answered in
        ground (
          arith,
          loop_ends n i g called s stop e,
          attempt_ends i g.shared s called stop e,
          answer_of-some (w.handler i) r,
        )
    | inr (s, e) ↦ rw (loop_again n i g s e) (
        loop_answer n (i + 1) (after g s) r (omega arith) (omega arith) refl
          (rw (loop_again n i g s e) at h))
  ]

  run_answer :
      (s : Shared) (r : String)
      → (run p w key s).stop ≡ some (succeeded r)
      → let d = run p w key s in (d.calls ≡ d.retries + 1) × (w.handler (d.calls - 1) ≡ answers r)
  unfolding run
  run_answer s r h =
      loop_answer (suc p.retry.max_attempts) 0
        (record { shared = s; calls = 0; retries = 0; stop = none }) r refl refl refl h

  outcome_succeeded :
      (n : ℕ) (st : Option Stop) (r : ExecutionResult)
      → outcome_of n st ≡ returns r
      → r.is_success ≡ true
      → (st ≡ some (succeeded r.response)) × (r.retry_count ≡ n)
  unfolding outcome_of
  outcome_succeeded n st r e t = ground arith

  -- A successful result of `execute` is the answer of its last call of the provider, and counts as
  -- retries the calls before that.
  pub execute_answer :
      (s : Shared) (r : ExecutionResult)
      → (execute p w key s).1 ≡ returns r
      → r.is_success ≡ true
      → let k = (run p w key s).calls in
        (w.handler (k - 1) ≡ answers r.response) × (k ≡ r.retry_count + 1)
  unfolding execute
  execute_answer s r e t =
      let (left, counted) = outcome_succeeded (run p w key s).retries (run p w key s).stop r e t in
      let (once, last) = run_answer s r.response left in (last, rw counted once)
