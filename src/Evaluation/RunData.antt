-- ===== src/Evaluation/RunData.antt =====
-- backend/app/evaluation/domain: what an `EvaluationRun` is given, stores and raises.
use redops.Base.{ℕ, String, Bool, Option, leb, ℤ}
use redops.Ai.{CancellationReason, Priority}
use redops.Evaluation.StateMachine.{TransitionError}

-- evaluation_events.py: the payload of each event; ids and times of the events are left out.
pub data Event : Type 0 where
  evaluation_queued : ℕ → String → Priority → Event
  evaluation_started : ℕ → String → String → ℕ → Event
  evaluation_paused : ℕ → ℕ → ℕ → Event
  evaluation_resumed : ℕ → ℕ → ℕ → Event
  evaluation_completed : ℕ → ℕ → ℕ → ℤ → Event
  evaluation_failed : ℕ → String → String → ℕ → ℕ → Event
  evaluation_timed_out : ℕ → ℕ → ℕ → ℕ → Event
  evaluation_cancelled : ℕ → CancellationReason → Bool → ℕ → ℕ → Event

-- What a method raises.
pub data RunError : Type 0 where
  invalid_transition : TransitionError → RunError
  value_error : RunError

-- `FailureSummary(total_items=…, failed_items=…)`
pub record FailureSummary : Type 0 where
  pub total_items : ℕ
  pub failed_items : ℕ

-- The numbers of a checkpoint. The accumulated metrics and cost are stored and read by no method.
pub record RunCheckpoint : Type 0 where
  pub run_id : ℕ
  pub checkpoint_number : ℕ
  pub items_completed : ℕ
  pub items_total : ℕ
  pub last_item_index : ℕ

-- `RunCheckpoint.is_complete`
unfoldable pub is_complete : RunCheckpoint → Bool
is_complete c = leb c.items_total c.items_completed

-- What `__init__` is given and the methods read: the configuration and the profile.
pub record Setup : Type 0 where
  pub id : ℕ
  pub evaluation_name : String
  pub priority : Priority
  pub provider_name : String
  pub model_id : String
  pub max_duration_seconds : Option ℕ
