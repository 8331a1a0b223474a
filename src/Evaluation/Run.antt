-- ===== src/Evaluation/Run.antt =====
-- backend/app/evaluation/domain/entities/evaluation_entities.py, `EvaluationRun`: the aggregate that
-- one execution of an evaluation writes to. Each method is a function to the run after the call and
-- what it raised; `now i` is the reading of the clock with index `i` within the call.
pub mod Lifecycle
pub mod Counters
pub mod Methods
pub mod Progress
use redops.Base.{
  ℕ, ◌+◌, ◌*◌, ◌/◌, String, Bool, false, Option, none, some, List, [], ◌∷◌, ◌++◌, leb,
  if◌then◌else◌, is_some, ℤ, pos, negsuc, Float, Clock, Call, return, raise,
}
use redops.Ai.{
  RunStatus, created, queued, starting, running, paused, cancelling, completed, failed, timedout,
  cancelled, CancellationReason, Priority,
}
pub use redops.Evaluation.RunData.{
  Event, evaluation_queued, evaluation_started, evaluation_paused, evaluation_resumed,
  evaluation_completed, evaluation_failed, evaluation_timed_out, evaluation_cancelled, RunError,
  invalid_transition, value_error, FailureSummary, RunCheckpoint, Setup,
}
unfoldable pub use redops.Evaluation.RunData.{is_complete}
use redops.Evaluation.StateMachine.{
  TransitionContext, TransitionError, TransitionResult, transition, can_transition,
}

-- A run, with its costs in an abstract float type. What no method writes or reads is left out.
pub record EvaluationRun (F : Type 0) : Type 0 where
  pub setup : Setup
  pub status : RunStatus
  pub items_total : ℕ
  pub items_completed : ℕ
  pub items_failed : ℕ
  pub started_at : Option ℕ
  pub completed_at : Option ℕ
  pub cancelled_at : Option ℕ
  pub token_input : ℕ
  pub token_output : ℕ
  pub cost : F
  pub average_latency_ms : ℕ
  pub checkpoint : Option RunCheckpoint
  pub failure_summary : Option FailureSummary
  pub cancellation_reason : Option CancellationReason
  pub version : ℕ
  pub updated_at : ℕ
  pub events : List Event

or_zero : Option ℕ → ℕ
or_zero none = 0
or_zero (some n) = n

-- `duration_ms` of a run whose `completed_at` was set to `end`.
duration_ms : {F : Type 0} → Float F → Option ℕ → ℕ → ℤ
duration_ms fl none end = pos 0
duration_ms fl (some begun) end = fl.millis end begun

abbrev pub RunCall : Type 0 → Type 0
RunCall F = Call (EvaluationRun F) RunError (Unit {0})

-- The lifecycle methods but `complete`, and the counters.
module _ {F : Type 0} where
  -- `__init__`
  unfoldable pub new_run : F → ℕ → Setup → EvaluationRun F
  new_run zero_cost now setup = record {
    setup = setup;
    status = created;
    items_total = 0;
    items_completed = 0;
    items_failed = 0;
    started_at = none;
    completed_at = none;
    cancelled_at = none;
    token_input = 0;
    token_output = 0;
    cost = zero_cost;
    average_latency_ms = 0;
    checkpoint = none;
    failure_summary = none;
    cancellation_reason = none;
    version = 1;
    updated_at = now;
    events = [];
  }

  -- `raise_event`
  abbrev emit : Event → EvaluationRun F → EvaluationRun F
  emit e r = record r { events = r.events ++ (e ∷ []) }

  -- The context that `_transition_to` makes, and that the methods pass with their own `force`.
  abbrev pub context : Bool → EvaluationRun F → TransitionContext
  context force r = record {
    items_completed = r.items_completed;
    items_total = r.items_total;
    has_checkpoint = is_some r.checkpoint;
    force = force;
  }

  -- `_transition_to`: on success the new status, `touch()` and `increment_version()`. The result is
  -- the error of the refused transition; `_raise_transition_error` raises it.
  moved : TransitionResult → ℕ → EvaluationRun F → EvaluationRun F
  moved t now r =
      if t.success
      then record r { status = t.new_status; updated_at = now; version = r.version + 1 }
      else r

  transition_to : RunStatus → Bool → ℕ → EvaluationRun F → EvaluationRun F
  unfolding moved
  transition_to target force now r = moved (transition r.status target (context force r)) now r

  -- The error that `_raise_transition_error` raises.
  transition_error : TransitionResult → RunStatus → EvaluationRun F → TransitionError
  transition_error t target r = elim t.error [
    | some e ↦ e
    | none ↦ record { current_status = r.status; target_status = target; failures = [] }
  ]

  -- `result = self._transition_to(target)`, the raise where it failed, and else the rest of the
  -- method on the moved run.
  attempt : RunStatus → Bool → ℕ → EvaluationRun F → (EvaluationRun F → RunCall F) → RunCall F
  unfolding transition_error transition_to
  attempt target force now r rest =
      let t = transition r.status target (context force r) in
      if t.success
      then rest (transition_to target force now r)
      else raise r (invalid_transition (transition_error t target r))

  -- A refused transition is passed over in silence.
  unfoldable pub queue : Clock → EvaluationRun F → RunCall F
  unfolding transition_to
  queue now r =
      let t = transition r.status queued (context false r) in
      let r' = transition_to queued false (now 0) r in
      return
        (if t.success
          then emit (evaluation_queued r.setup.id r.setup.evaluation_name r.setup.priority) r'
          else r')
        tt

  started : ℕ → ℕ → EvaluationRun F → RunCall F
  started total now r =
      return
        (emit (evaluation_started r.setup.id r.setup.provider_name r.setup.model_id total)
          (record r { started_at = some now }))
        tt

  unfoldable pub start : ℤ → Clock → EvaluationRun F → RunCall F
  unfolding attempt started
  start (negsuc n) now r = raise r value_error
  start (pos total) now r =
      attempt starting false (now 0) (record r { items_total = total })
        λ r'. attempt running false (now 1) r' (started total (now 2))

  unfoldable pub pause : Clock → EvaluationRun F → RunCall F
  unfolding attempt
  pause now r =
      attempt paused false (now 0) r
        λ r'. return (emit (evaluation_paused r'.setup.id r'.items_completed r'.items_total) r') tt

  unfoldable pub resume : Clock → EvaluationRun F → RunCall F
  unfolding attempt
  resume now r =
      attempt running false (now 0) r
        λ r'. return (emit (evaluation_resumed r'.setup.id r'.items_completed r'.items_total) r') tt

  unfoldable pub fail : String → String → Clock → EvaluationRun F → RunCall F
  unfolding attempt
  fail code message now r = attempt failed false (now 0) r λ r'.
      return
        (emit (evaluation_failed r'.setup.id code message r'.items_completed r'.items_total)
          (record r' {
            completed_at = some (now 1);
            failure_summary =
                some (record { total_items = r'.items_total; failed_items = r'.items_failed });
          }))
        tt

  unfoldable pub timeout : Clock → EvaluationRun F → RunCall F
  unfolding attempt or_zero
  timeout now r = attempt timedout false (now 0) r λ r'.
      return
        (emit
          (evaluation_timed_out r'.setup.id (or_zero r'.setup.max_duration_seconds)
            r'.items_completed r'.items_total)
          (record r' { completed_at = some (now 1) }))
        tt

  -- The reason is written before the transition is tried. The last reading is `cancelled_at`.
  unfoldable pub cancel : CancellationReason → Bool → Clock → EvaluationRun F → RunCall F
  unfolding attempt
  cancel reason force now r =
      attempt (if force then cancelled else cancelling) force (now 0)
        (record r { cancellation_reason = some reason })
        λ r'.
          return
            (emit (evaluation_cancelled r'.setup.id reason force r'.items_completed r'.items_total)
              (record r' {
                completed_at = if force then some (now 1) else r'.completed_at;
                cancelled_at = some (now 2);
              }))
            tt

  unfoldable pub record_item_success : Clock → EvaluationRun F → EvaluationRun F
  record_item_success now r = record r {
    items_completed = r.items_completed + 1;
    updated_at = now 0;
  }

  unfoldable pub record_item_failure : Clock → EvaluationRun F → EvaluationRun F
  record_item_failure now r = record r {
    items_failed = r.items_failed + 1;
    items_completed = r.items_completed + 1;
    updated_at = now 0;
  }

  unfoldable pub record_token_usage : ℕ → ℕ → Clock → EvaluationRun F → EvaluationRun F
  record_token_usage input output now r = record r {
    token_input = r.token_input + input;
    token_output = r.token_output + output;
    updated_at = now 0;
  }

  unfoldable pub record_latency : ℕ → Clock → EvaluationRun F → EvaluationRun F
  record_latency latency now r = record r {
    average_latency_ms =
        if leb r.items_completed 0
        then latency
        else (r.average_latency_ms * r.items_completed + latency) / (r.items_completed + 1);
    updated_at = now 0;
  }

  unfoldable pub save_checkpoint : RunCheckpoint → Clock → EvaluationRun F → EvaluationRun F
  save_checkpoint c now r = record r { checkpoint = some c; updated_at = now 0 }

  unfoldable pub can_transition_to : RunStatus → EvaluationRun F → Bool
  can_transition_to target r = can_transition r.status target (some (context false r))

  unfoldable pub total_tokens : EvaluationRun F → ℕ
  total_tokens r = r.token_input + r.token_output

module _ {F : Type 0} ⦃fl : Float F⦄ where
  unfoldable pub complete : Clock → EvaluationRun F → RunCall F
  unfolding attempt duration_ms
  complete now r = attempt completed false (now 0) r λ r'.
      return
        (emit
          (evaluation_completed r'.setup.id r'.items_completed r'.items_total
            (duration_ms fl r'.started_at (now 1)))
          (record r' { completed_at = some (now 1) }))
        tt

  unfoldable pub record_cost : F → Clock → EvaluationRun F → EvaluationRun F
  record_cost cost now r = record r { cost = fl.add r.cost cost; updated_at = now 0 }
