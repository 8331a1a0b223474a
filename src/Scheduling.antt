-- ===== src/Scheduling.antt =====
-- backend/app/scheduling/domain.py: `RetryPolicy` and `Schedule`. The pattern of a cron expression is a
-- test; what no method reads is left out. `now` is the reading of the clock by `touch`.
pub mod Retrying
pub mod Counting
mod Tests
use redops.Base.{
  ℕ, ◌+◌, ◌*◌, ◌-◌, ◌^◌, ◌==◌, leb, min, String, Bool, true, false, Option, none, some,
  if◌then◌else◌, strip, Result, ok, raised, Call, return, raise,
}

pub data RetryStrategy : Type 0 where
  fixed exponential linear : RetryStrategy

pub record RetryPolicy : Type 0 where
  pub max_retries : ℕ
  pub strategy : RetryStrategy
  pub base_delay_seconds : ℕ
  pub max_delay_seconds : ℕ

-- The delay before it is cut off.
unfoldable pub raw_delay : RetryPolicy → ℕ → ℕ
raw_delay p attempt = elim p.strategy [
  | fixed ↦ p.base_delay_seconds
  | linear ↦ p.base_delay_seconds * attempt
  | exponential ↦ p.base_delay_seconds * 2 ^ (attempt - 1)
]

unfoldable pub delay_for_attempt : RetryPolicy → ℕ → ℕ
unfolding raw_delay
delay_for_attempt p attempt =
    if attempt == 0 then 0 else min (raw_delay p attempt) p.max_delay_seconds

pub data ScheduleStatus : Type 0 where
  active paused completed failed : ScheduleStatus

pub data ScheduleError : Type 0 where
  conflict_error : ScheduleError
  cron_error : String → ScheduleError

pub record Schedule : Type 0 where
  pub name : String
  pub cron_expression : String
  pub status : ScheduleStatus
  pub last_run_at : Option ℕ
  pub next_run_at : Option ℕ
  pub run_count : ℕ
  pub failure_count : ℕ
  pub version : ℕ
  pub updated_at : ℕ

-- `validate_cron`, with the test of `_CRON_PATTERN`.
unfoldable pub validate_cron : (String → Bool) → String → Result ScheduleError Bool
validate_cron matches expression =
    if matches (strip expression) then ok true else raised (cron_error expression)

unfoldable pub create : (String → Bool) → String → String → ℕ → Result ScheduleError Schedule
unfolding validate_cron
create matches name expression now = elim (validate_cron matches expression) [
  | raised e ↦ raised e
  | ok b ↦ ok (record {
    name = strip name;
    cron_expression = strip expression;
    status = active;
    last_run_at = none;
    next_run_at = none;
    run_count = 0;
    failure_count = 0;
    version = 1;
    updated_at = now;
  })
]

abbrev pub ScheduleCall : Type 0
ScheduleCall = Call Schedule ScheduleError (Unit {0})

unfoldable pub pause : ℕ → Schedule → ScheduleCall
pause now s = elim s.status [
  | active ↦ return (record s { status = paused; updated_at = now; version = s.version + 1 }) tt
  | _ ↦ raise s conflict_error
]

unfoldable pub resume : ℕ → Schedule → ScheduleCall
resume now s = elim s.status [
  | paused ↦ return (record s { status = active; updated_at = now; version = s.version + 1 }) tt
  | _ ↦ raise s conflict_error
]

-- With the reading of the clock for `last_run_at` and that of `touch`.
unfoldable pub record_run : Bool → ℕ → ℕ → Schedule → Schedule
record_run success ran now s = record s {
  last_run_at = some ran;
  run_count = s.run_count + 1;
  failure_count = if success then s.failure_count else s.failure_count + 1;
  updated_at = now;
}

unfoldable pub update_next_run : ℕ → ℕ → Schedule → Schedule
update_next_run next now s = record s { next_run_at = some next; updated_at = now }
