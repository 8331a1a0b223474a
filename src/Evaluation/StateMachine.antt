-- ===== src/Evaluation/StateMachine.antt =====
-- backend/app/evaluation/domain/state_machine/run_state_machine.py: the table of transitions, its
-- guards and `RunStateMachine`.
pub mod Table
pub mod Document
use redops.Base.{
  ℕ, Bool, true, false, not, ◌&&◌, Option, none, some, List, [], ◌∷◌, ltb, if◌then◌else◌,
}
use redops.Ai.{
  RunStatus, created, queued, starting, running, paused, cancelling, completed, failed, timedout,
  cancelled, same_status, is_terminal,
}

-- The run's id is passed along and read by no guard; it is left out.
pub record TransitionContext : Type 0 where
  pub items_completed : ℕ
  pub items_total : ℕ
  pub has_checkpoint : Bool
  pub force : Bool

-- `TransitionContext()`
abbrev pub default_context : TransitionContext
default_context = record {
  items_completed = 0;
  items_total = 0;
  has_checkpoint = false;
  force = false;
}

-- A guard's message: "Not all items completed (a/b)" with the two numbers that it prints, and
-- "No checkpoint available for resume".
pub data GuardFailure : Type 0 where
  not_all_items : ℕ → ℕ → GuardFailure
  no_checkpoint : GuardFailure

abbrev pub GuardCondition : Type 0
GuardCondition = TransitionContext → Option GuardFailure

require_all_items_completed : GuardCondition
require_all_items_completed ctx =
    if ltb ctx.items_completed ctx.items_total
    then some (not_all_items ctx.items_completed ctx.items_total)
    else none

-- The source prints `items_completed` for both numbers.
require_items_completed_or_force : GuardCondition
require_items_completed_or_force ctx =
    if ltb ctx.items_completed ctx.items_total && not ctx.force
    then some (not_all_items ctx.items_completed ctx.items_completed)
    else none

require_checkpoint_for_resume : GuardCondition
require_checkpoint_for_resume ctx = if not ctx.has_checkpoint then some no_checkpoint else none

noop_guard : GuardCondition
noop_guard ctx = none

pub record Transition : Type 0 where
  pub source : RunStatus
  pub target : RunStatus
  pub guards : List GuardCondition

abbrev edge : RunStatus → RunStatus → List GuardCondition → Transition
edge s t g = record { source = s; target = t; guards = g }

-- `_VALID_TRANSITIONS`, in the source's order.
valid_transitions : List Transition
unfolding require_all_items_completed require_items_completed_or_force require_checkpoint_for_resume
    noop_guard
valid_transitions =
    edge created queued []
    ∷ edge queued starting []
    ∷ edge queued cancelled (require_items_completed_or_force ∷ [])
    ∷ edge starting running []
    ∷ edge starting failed []
    ∷ edge running paused (noop_guard ∷ [])
    ∷ edge running cancelling []
    ∷ edge running completed (require_all_items_completed ∷ [])
    ∷ edge running failed []
    ∷ edge running timedout []
    ∷ edge running cancelled (require_items_completed_or_force ∷ [])
    ∷ edge paused running (require_checkpoint_for_resume ∷ [])
    ∷ edge paused cancelling []
    ∷ edge cancelling completed (require_items_completed_or_force ∷ [])
    ∷ edge cancelling cancelled (require_items_completed_or_force ∷ [])
    ∷ edge cancelling failed []
    ∷ []

same_key : Transition → Transition → Bool
same_key s t = same_status s.source t.source && same_status s.target t.target

-- `self._transitions[key] = t`: the value of an old key is replaced where it stands.
put : Transition → List Transition → List Transition
unfolding same_key
put t [] = t ∷ []
put t (s ∷ ss) = if same_key s t then t ∷ ss else s ∷ put t ss

put_all : List Transition → List Transition → List Transition
unfolding put
put_all table [] = table
put_all table (t ∷ ts) = put_all (put t table) ts

-- `self._transitions`, as `__init__` builds it.
transitions : List Transition
unfolding put_all valid_transitions
transitions = put_all [] valid_transitions

-- `self._transitions[key]`, `none` where `key not in self._transitions`.
find : RunStatus → RunStatus → List Transition → Option Transition
find s t [] = none
find s t (e ∷ es) = if same_status e.source s && same_status e.target t then some e else find s t es

-- The loop over `transition.guards`.
guard_failures : TransitionContext → List GuardCondition → List GuardFailure
guard_failures ctx [] = []
guard_failures ctx (g ∷ gs) =
    let rest = guard_failures ctx gs in elim (g ctx) [ none ↦ rest | some f ↦ f ∷ rest ]

-- `InvalidTransitionError`; its message is made from the failures of the guards, if there are any.
pub record TransitionError : Type 0 where
  pub current_status : RunStatus
  pub target_status : RunStatus
  pub failures : List GuardFailure

pub record TransitionResult : Type 0 where
  pub success : Bool
  pub new_status : RunStatus
  pub error : Option TransitionError
  pub guard_failures : List GuardFailure

abbrev succeed : RunStatus → TransitionResult
succeed target = record { success = true; new_status = target; error = none; guard_failures = [] }

abbrev refuse : RunStatus → RunStatus → List GuardFailure → TransitionResult
refuse current target fs = record {
  success = false;
  new_status = current;
  error = some (record { current_status = current; target_status = target; failures = fs });
  guard_failures = fs;
}

conclude : RunStatus → RunStatus → List GuardFailure → TransitionResult
conclude current target [] = succeed target
conclude current target (f ∷ fs) = refuse current target (f ∷ fs)

follow : RunStatus → RunStatus → TransitionContext → Option Transition → TransitionResult
unfolding conclude guard_failures
follow current target ctx none = refuse current target []
follow current target ctx (some t) = conclude current target (guard_failures ctx t.guards)

-- `RunStateMachine.transition`
unfoldable pub transition : RunStatus → RunStatus → TransitionContext → TransitionResult
unfolding follow find transitions
transition current target ctx =
    if is_terminal current && same_status target current
    then succeed target
    else if is_terminal current
    then refuse current target []
    else follow current target ctx (find current target transitions)

-- `RunStateMachine.can_transition`
unfoldable pub can_transition : RunStatus → RunStatus → Option TransitionContext → Bool
can_transition current target none = (transition current target default_context).success
can_transition current target (some ctx) = (transition current target ctx).success

targets_from : RunStatus → List Transition → List RunStatus
targets_from current [] = []
targets_from current (t ∷ ts) =
    let rest = targets_from current ts in
    if same_status t.source current then t.target ∷ rest else rest

-- `RunStateMachine.valid_targets`
unfoldable pub valid_targets : RunStatus → List RunStatus
unfolding targets_from transitions
valid_targets current = targets_from current transitions
