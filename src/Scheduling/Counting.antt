-- ===== src/Scheduling/Counting.antt =====
-- What holds of a `Schedule` over every sequence of calls of its methods.
use redops.Base.{
  ℕ, ◌+◌, ◌==◌, not, String, Bool, true, false, List, [], ◌∷◌, is_some, ok, ◌≡◌, arith,
}
use redops.Scheduling.{
  ScheduleStatus, active, paused, Schedule, validate_cron, create, pause, resume, record_run,
  update_next_run,
}

-- The methods that write, as requests.
pub data Request : Type 0 where
  to_pause to_resume : Request
  run : Bool → ℕ → Request
  next_run : ℕ → Request

unfoldable pub serve : Request → ℕ → Schedule → Schedule
unfolding pause resume record_run update_next_run
serve to_pause now s = (pause now s).self
serve to_resume now s = (resume now s).self
serve (run success at) now s = record_run success at now s
serve (next_run next) now s = update_next_run next now s

unfoldable pub serve_all : List (Request × ℕ) → Schedule → Schedule
unfolding serve
serve_all [] s = s
serve_all ((q, now) ∷ qs) s = serve_all qs (serve q now s)

-- Whether the request is a run, and one that did not succeed; and the numbers of these in a sequence.
abbrev pub ran : Request → ℕ
ran (run success at) = 1
ran _ = 0

abbrev pub missed : Request → ℕ
missed (run false at) = 1
missed _ = 0

abbrev pub runs : List (Request × ℕ) → ℕ
runs [] = 0
runs ((q, now) ∷ qs) = ran q + runs qs

abbrev pub failures : List (Request × ℕ) → ℕ
failures [] = 0
failures ((q, now) ∷ qs) = missed q + failures qs

-- The status is ACTIVE or PAUSED.
abbrev pub is_going : ScheduleStatus → Bool
is_going active = true
is_going paused = true
is_going _ = false

-- After so many runs and failures: they are counted, the last one has a time where there was one, and the
-- schedule is active or paused.
pub record IsCounted (n m : ℕ) (s : Schedule) : Type 0 where
  pub counted : s.run_count ≡ n
  pub unsuccessful : s.failure_count ≡ m
  pub last : is_some s.last_run_at ≡ not (n == 0)
  pub going : is_going s.status ≡ true

serve-IsCounted :
    (q : Request) (now n m : ℕ) (s : Schedule)
    → IsCounted n m s
    → IsCounted (n + ran q) (m + missed q) (serve q now s)
unfolding serve
serve-IsCounted q now n m s h = ground (arith, h.counted, h.unsuccessful, h.last, h.going)

serve_all-IsCounted :
    (qs : List (Request × ℕ)) (n m : ℕ) (s : Schedule)
    → IsCounted n m s
    → IsCounted (n + runs qs) (m + failures qs) (serve_all qs s)
unfolding serve_all
serve_all-IsCounted [] n m s h = ground (arith, h.counted, h.unsuccessful, h.last, h.going)
serve_all-IsCounted ((q, now) ∷ qs) n m s h =
    let rest =
      serve_all-IsCounted qs (n + ran q) (m + missed q) (serve q now s)
        (serve-IsCounted q now n m s h) in
    ground (arith, rest.counted, rest.unsuccessful, rest.last, rest.going)

-- Whatever is called on a schedule that `create` has returned: its counters are the numbers of the recorded
-- runs and of those without success, there is a time of the last run exactly where there was one, and its
-- status is active or paused, never completed or failed.
pub serve_all-create-IsCounted :
    (qs : List (Request × ℕ)) (matches : String → Bool) (name expression : String) (now : ℕ)
    (s : Schedule)
    → create matches name expression now ≡ ok s
    → IsCounted (runs qs) (failures qs) (serve_all qs s)
unfolding create validate_cron
serve_all-create-IsCounted qs matches name expression now s h =
    let end = serve_all-IsCounted qs 0 0 s (ground (arith, h)) in
    ground (arith, end.counted, end.unsuccessful, end.last, end.going)
