-- ===== src/Agents/Run.antt =====
-- backend/app/agents/domain/entities/agent_entities.py, `AgentRun`. Each method is a function to the
-- run after the call and what it raised; `now i` is the reading of the clock with index `i` within the
-- call. What no method writes or reads is left out.
pub mod Orderly
use text.Mathlib.Text.{◌==◌ as str_eq}
use redops.Base.{
  ℕ, ◌+◌, ◌*◌, ◌/◌, String, Bool, true, false, not, Option, none, some, List, [], ◌∷◌, ◌++◌, leb,
  if◌then◌else◌, ℤ, pos, negsuc, Float, Clock, Call, return, raise,
}
use redops.Ai.{
  RunStatus, created, queued, starting, running, completed, failed, timedout, cancelling, cancelled,
  FailureReason, CancellationReason, Priority,
}
use redops.Agents.Transitions.{can_transition_to}

-- agent_events.py
pub data Event : Type 0 where
  run_queued : ℕ → String → Priority → Event
  run_started : ℕ → String → String → ℕ → Event
  run_completed : ℕ → ℕ → ℕ → ℤ → Event
  run_failed : ℕ → String → String → ℕ → ℕ → Event
  run_timed_out : ℕ → ℕ → ℕ → ℕ → Event
  run_cancelled : ℕ → CancellationReason → Bool → ℕ → ℕ → Event
  checkpoint_created : ℕ → ℕ → ℕ → Event

-- An `AgentRunTransitionError` with the status, and the `ValueError` of a negative number of steps.
pub data RunError : Type 0 where
  transition_error : RunStatus → RunError
  value_error : RunError

-- What `__init__` is given and the methods read.
pub record Setup : Type 0 where
  pub id : ℕ
  pub agent_name : String
  pub provider_name : String
  pub model_id : String
  pub timeout_seconds : ℕ

-- Of an `AgentCheckpoint`, its number is read.
pub record AgentRun (F : Type 0) : Type 0 where
  pub setup : Setup
  pub status : RunStatus
  pub priority : Priority
  pub steps_total : ℕ
  pub steps_completed : ℕ
  pub steps_failed : ℕ
  pub started_at : Option ℕ
  pub completed_at : Option ℕ
  pub cancelled_at : Option ℕ
  pub token_input : ℕ
  pub token_output : ℕ
  pub cost : F
  pub average_latency_ms : ℕ
  pub checkpoint_number : Option ℕ
  pub failure_summary : Option FailureReason
  pub cancellation_reason : Option CancellationReason
  pub version : ℕ
  pub updated_at : ℕ
  pub events : List Event

-- The members of `FailureReason` with their values.
abbrev reasons : List (String × FailureReason)
reasons =
    ("provider_error", FailureReason.provider_error)
    ∷ ("provider_timeout", FailureReason.provider_timeout)
    ∷ ("provider_unavailable", FailureReason.provider_unavailable)
    ∷ ("rate_limited", FailureReason.rate_limited)
    ∷ ("authentication_failed", FailureReason.authentication_failed)
    ∷ ("invalid_model", FailureReason.invalid_model)
    ∷ ("context_window_exceeded", FailureReason.context_window_exceeded)
    ∷ ("token_limit_exceeded", FailureReason.token_limit_exceeded)
    ∷ ("invalid_response", FailureReason.invalid_response)
    ∷ ("validation_error", FailureReason.validation_error)
    ∷ ("metric_computation_error", FailureReason.metric_computation_error)
    ∷ ("configuration_error", FailureReason.configuration_error)
    ∷ ("dataset_error", FailureReason.dataset_error)
    ∷ ("tool_execution_error", FailureReason.tool_execution_error)
    ∷ ("orchestration_error", FailureReason.orchestration_error)
    ∷ ("checkpoint_error", FailureReason.checkpoint_error)
    ∷ ("timeout_exceeded", FailureReason.timeout_exceeded)
    ∷ ("internal_error", FailureReason.internal_error)
    ∷ ("cancelled", FailureReason.cancelled)
    ∷ []

-- The loop of `fail` over the reasons.
reason_of : String → List (String × FailureReason) → FailureReason
reason_of code [] = FailureReason.internal_error
reason_of code ((v, r) ∷ rs) = let rest = reason_of code rs in if str_eq v code then r else rest

duration_of : {F : Type 0} → Float F → Option ℕ → ℕ → ℤ
duration_of fl none end = pos 0
duration_of fl (some begun) end = fl.millis end begun

abbrev pub RunCall : Type 0 → Type 0
RunCall F = Call (AgentRun F) RunError (Unit {0})

module _ {F : Type 0} where
  -- `__init__`
  unfoldable pub new_run : F → ℕ → Setup → AgentRun F
  new_run zero_cost now setup = record {
    setup = setup;
    status = created;
    priority = Priority.normal;
    steps_total = 0;
    steps_completed = 0;
    steps_failed = 0;
    started_at = none;
    completed_at = none;
    cancelled_at = none;
    token_input = 0;
    token_output = 0;
    cost = zero_cost;
    average_latency_ms = 0;
    checkpoint_number = none;
    failure_summary = none;
    cancellation_reason = none;
    version = 1;
    updated_at = now;
    events = [];
  }

  abbrev emit : Event → AgentRun F → AgentRun F
  emit e r = record r { events = r.events ++ (e ∷ []) }

  -- `if not self._transition_to(target): raise …`, and the rest of the method on the moved run.
  attempt : RunStatus → ℕ → AgentRun F → (AgentRun F → RunCall F) → RunCall F
  attempt target now r rest =
      if can_transition_to r.status target
      then rest (record r { status = target; updated_at = now; version = r.version + 1 })
      else raise r (transition_error r.status)

  unfoldable pub queue : Clock → AgentRun F → RunCall F
  unfolding attempt
  queue now r =
      attempt queued (now 0) r
        λ r'. return (emit (run_queued r'.setup.id r'.setup.agent_name r'.priority) r') tt

  started : ℕ → ℕ → AgentRun F → RunCall F
  started total now r =
      return
        (emit (run_started r.setup.id r.setup.provider_name r.setup.model_id total)
          (record r { started_at = some now }))
        tt

  unfoldable pub start : ℤ → Clock → AgentRun F → RunCall F
  unfolding attempt started
  start (negsuc n) now r = raise r value_error
  start (pos total) now r =
      attempt starting (now 0) (record r { steps_total = total })
        λ r'. attempt running (now 1) r' (started total (now 2))

  unfoldable pub fail : String → String → Clock → AgentRun F → RunCall F
  unfolding attempt reason_of
  fail code message now r = attempt failed (now 0) r λ r'.
      return
        (emit (run_failed r'.setup.id code message r'.steps_completed r'.steps_total) (record r' {
          completed_at = some (now 1);
          failure_summary = some (reason_of code reasons);
        }))
        tt

  unfoldable pub timeout : Clock → AgentRun F → RunCall F
  unfolding attempt
  timeout now r = attempt timedout (now 0) r λ r'.
      return
        (emit (run_timed_out r'.setup.id r'.setup.timeout_seconds r'.steps_completed r'.steps_total)
          (record r' { completed_at = some (now 1) }))
        tt

  -- The reason is written before the transition is tried. The last reading is `cancelled_at`.
  unfoldable pub cancel : CancellationReason → Bool → Clock → AgentRun F → RunCall F
  unfolding attempt
  cancel reason force now r =
      attempt (if force then cancelled else cancelling) (now 0)
        (record r { cancellation_reason = some reason })
        λ r'.
          return
            (emit (run_cancelled r'.setup.id reason force r'.steps_completed r'.steps_total)
              (record r' {
                completed_at = if force then some (now 1) else r'.completed_at;
                cancelled_at = some (now 2);
              }))
            tt

  unfoldable pub record_step_success : Clock → AgentRun F → AgentRun F
  record_step_success now r = record r {
    steps_completed = r.steps_completed + 1;
    updated_at = now 0;
  }

  unfoldable pub record_step_failure : Clock → AgentRun F → AgentRun F
  record_step_failure now r = record r {
    steps_failed = r.steps_failed + 1;
    steps_completed = r.steps_completed + 1;
    updated_at = now 0;
  }

  unfoldable pub record_token_usage : ℕ → ℕ → Clock → AgentRun F → AgentRun F
  record_token_usage input output now r = record r {
    token_input = r.token_input + input;
    token_output = r.token_output + output;
    updated_at = now 0;
  }

  unfoldable pub record_latency : ℕ → Clock → AgentRun F → AgentRun F
  record_latency latency now r = record r {
    average_latency_ms =
        if leb r.steps_completed 0
        then latency
        else (r.average_latency_ms * r.steps_completed + latency) / (r.steps_completed + 1);
    updated_at = now 0;
  }

  unfoldable pub save_checkpoint : ℕ → AgentRun F → AgentRun F
  save_checkpoint number r =
      emit (checkpoint_created r.setup.id number r.steps_completed)
        (record r { checkpoint_number = some number })

module _ {F : Type 0} ⦃fl : Float F⦄ where
  unfoldable pub complete : Clock → AgentRun F → RunCall F
  unfolding attempt duration_of
  complete now r = attempt completed (now 0) r λ r'.
      return
        (emit
          (run_completed r'.setup.id r'.steps_completed r'.steps_total
            (duration_of fl r'.started_at (now 1)))
          (record r' { completed_at = some (now 1) }))
        tt

  unfoldable pub record_cost : F → Clock → AgentRun F → AgentRun F
  record_cost cost now r = record r { cost = fl.add r.cost cost; updated_at = now 0 }
