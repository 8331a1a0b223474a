-- ===== src/Ai.antt =====
-- backend/app/ai/core/enums.py: the enums that the bounded contexts share. An enum is a data type
-- without fields; `==` on members compares their positions, and a frozen set of members is a test.
use redops.Base.{ℕ, Bool, true, false, ◌==◌, ◌≡◌, ◌↔◌, arith}

pub data RunStatus : Type 0 where
  created queued starting running paused cancelling completed failed timedout cancelled : RunStatus

pub data StepStatus : Type 0 where
  pending running completed failed skipped cancelled retrying : StepStatus

pub data FailureReason : Type 0 where
  provider_error provider_timeout provider_unavailable rate_limited authentication_failed
        invalid_model context_window_exceeded token_limit_exceeded invalid_response validation_error
        metric_computation_error configuration_error dataset_error tool_execution_error
        orchestration_error checkpoint_error timeout_exceeded internal_error cancelled :
      FailureReason

pub data CancellationReason : Type 0 where
  user_cancelled system_cancelled quota_exceeded budget_exceeded deployment_cancelled
        timeout_exceeded :
      CancellationReason

pub data Priority : Type 0 where
  low normal high critical : Priority

-- The place of a member in its enum.
abbrev pub position : RunStatus → ℕ
position created = 0
position queued = 1
position starting = 2
position running = 3
position paused = 4
position cancelling = 5
position completed = 6
position failed = 7
position timedout = 8
position cancelled = 9

-- `a == b` on run statuses.
abbrev pub same_status : RunStatus → RunStatus → Bool
same_status a b = position a == position b

-- `_TERMINAL_STATES`
abbrev pub is_terminal : RunStatus → Bool
is_terminal completed = true
is_terminal failed = true
is_terminal timedout = true
is_terminal cancelled = true
is_terminal _ = false

pub same_status_iff : (a b : RunStatus) → (same_status a b ≡ true) ↔ (a ≡ b)
same_status_iff a b = ground arith
