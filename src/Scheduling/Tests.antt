-- ===== src/Scheduling/Tests.antt =====
-- The theorems on backend/app/scheduling, applied to a nightly schedule.
use redops.Base.{ℕ, true, false, none, List, [], ◌∷◌, ◌≡◌, refl, strip}
use redops.Scheduling.{
  RetryPolicy, RetryStrategy, Schedule, ScheduleStatus, delay_for_attempt, validate_cron, create,
}
use redops.Scheduling.Counting.{
  Request, to_pause, to_resume, run, next_run, serve_all, IsCounted, serve_all-create-IsCounted,
}

abbrev policy : RetryPolicy
policy = record {
  max_retries = 3;
  strategy = RetryStrategy.exponential;
  base_delay_seconds = 60;
  max_delay_seconds = 3_600;
}

seventh : delay_for_attempt policy 7 ≡ 3_600
unfolding delay_for_attempt
seventh = refl

abbrev nightly : Schedule
nightly = record {
  name = "nightly";
  cron_expression = "0 3 * * *";
  status = ScheduleStatus.active;
  last_run_at = none;
  next_run_at = none;
  run_count = 0;
  failure_count = 0;
  version = 1;
  updated_at = 5;
}

abbrev requests : List (Request × ℕ)
requests =
    (next_run 900, 10)
    ∷ (run true 900, 910)
    ∷ (to_pause, 920)
    ∷ (run false 930, 940)
    ∷ (to_resume, 950)
    ∷ (to_resume, 960)
    ∷ []

serve_all-create-IsCounted_example : IsCounted 2 1 (serve_all requests nightly)
unfolding create validate_cron strip
serve_all-create-IsCounted_example =
    serve_all-create-IsCounted requests (λ text. true) "nightly" "0 3 * * *" 5 nightly refl
