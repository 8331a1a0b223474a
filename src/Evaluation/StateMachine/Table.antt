-- ===== src/Evaluation/StateMachine/Table.antt =====
-- The state machine as a relation of edges: what `transition` accepts, and what it leaves of the rest.
use redops.Base.{
  ℕ, ◌≤◌, ◌<◌, ◌≡◌, ◌≢◌, refl, ◌↔◌, ◌⊎◌, Bool, true, false, none, some, [], ◌∷◌, arith, any,
  if◌then◌else◌,
}
use redops.Ai.{
  RunStatus, created, queued, starting, running, paused, cancelling, completed, failed, timedout,
  cancelled, same_status, is_terminal,
}
use redops.Evaluation.StateMachine.{
  TransitionContext, TransitionResult, not_all_items, transition, valid_targets,
}

-- All items are processed, or the caller forces the cancellation.
abbrev pub IsDoneOrForced : TransitionContext → Type 0
IsDoneOrForced ctx = (ctx.items_total ≤ ctx.items_completed) ⊎ (ctx.force ≡ true)

-- The edges of the code's table, with the condition under which each edge is open.
pub data Edge (ctx : TransitionContext) : RunStatus → RunStatus → Type 0 where
  queue : Edge ctx created queued
  begin : Edge ctx queued starting
  cancel_queued : IsDoneOrForced ctx → Edge ctx queued cancelled
  activate : Edge ctx starting running
  fail_starting : Edge ctx starting failed
  pause : Edge ctx running paused
  begin_cancel : Edge ctx running cancelling
  complete : ctx.items_total ≤ ctx.items_completed → Edge ctx running completed
  fail : Edge ctx running failed
  time_out : Edge ctx running timedout
  cancel_running : IsDoneOrForced ctx → Edge ctx running cancelled
  resume : ctx.has_checkpoint ≡ true → Edge ctx paused running
  cancel_paused : Edge ctx paused cancelling
  complete_cancelling : IsDoneOrForced ctx → Edge ctx cancelling completed
  finish_cancel : IsDoneOrForced ctx → Edge ctx cancelling cancelled
  fail_cancelling : Edge ctx cancelling failed
  -- a terminal status may be entered again from itself
  stay : {s : RunStatus} → is_terminal s ≡ true → Edge ctx s s

-- `transition` succeeds only along an open edge.
pub transition-Edge :
    (s t : RunStatus) (ctx : TransitionContext) → (transition s t ctx).success ≡ true → Edge ctx s t
unfolding transition
transition-Edge created queued ctx h = queue
transition-Edge queued starting ctx h = begin
transition-Edge queued cancelled ctx h = cancel_queued (ground arith)
transition-Edge starting running ctx h = activate
transition-Edge starting failed ctx h = fail_starting
transition-Edge running paused ctx h = pause
transition-Edge running cancelling ctx h = begin_cancel
transition-Edge running completed ctx h = complete (ground arith)
transition-Edge running failed ctx h = fail
transition-Edge running timedout ctx h = time_out
transition-Edge running cancelled ctx h = cancel_running (ground arith)
transition-Edge paused running ctx h = resume (ground arith)
transition-Edge paused cancelling ctx h = cancel_paused
transition-Edge cancelling completed ctx h = complete_cancelling (ground arith)
transition-Edge cancelling cancelled ctx h = finish_cancel (ground arith)
transition-Edge cancelling failed ctx h = fail_cancelling
transition-Edge completed completed ctx h = stay refl
transition-Edge failed failed ctx h = stay refl
transition-Edge timedout timedout ctx h = stay refl
transition-Edge cancelled cancelled ctx h = stay refl
transition-Edge s t ctx h = cc

-- Every open edge is accepted.
pub Edge-transition :
    {s t : RunStatus} (ctx : TransitionContext) → Edge ctx s t → (transition s t ctx).success ≡ true
unfolding transition
Edge-transition ctx queue = refl
Edge-transition ctx (cancel_queued h) = ground arith
Edge-transition ctx (cancel_running h) = ground arith
Edge-transition ctx (complete h) = ground arith
Edge-transition ctx (resume h) = ground arith
Edge-transition ctx (complete_cancelling h) = ground arith
Edge-transition ctx (finish_cancel h) = ground arith
Edge-transition ctx (stay {s} h) = ground arith
Edge-transition ctx _ = ground arith

-- A transition succeeds exactly along an open edge.
pub transition_iff_Edge :
    (s t : RunStatus) (ctx : TransitionContext)
    → ((transition s t ctx).success ≡ true) ↔ Edge ctx s t
transition_iff_Edge s t ctx = (transition-Edge s t ctx, Edge-transition ctx)

-- What a result says, by its success flag.
abbrev pub Reports : RunStatus → RunStatus → TransitionResult → Type 0
Reports s t r =
    if r.success
    then ((r.new_status ≡ t) × (r.error ≡ none) × (r.guard_failures ≡ []))
    else ((r.new_status ≡ s)
        × (r.error
            ≡ some (record { current_status = s; target_status = t; failures = r.guard_failures })))

-- A transition that succeeds reports the target, without an error and without guard failures; one that
-- is refused reports the old status and the error of this move with the failures of its guards.
pub transition-Reports :
    (s t : RunStatus) (ctx : TransitionContext) → Reports s t (transition s t ctx)
unfolding transition
transition-Reports created created ctx = (refl, refl)
transition-Reports s t ctx = ground arith

-- The edges without their conditions.
unfoldable pub follows : RunStatus → RunStatus → Bool
follows created queued = true
follows queued starting = true
follows queued cancelled = true
follows starting running = true
follows starting failed = true
follows running paused = true
follows running cancelling = true
follows running completed = true
follows running failed = true
follows running timedout = true
follows running cancelled = true
follows paused running = true
follows paused cancelling = true
follows cancelling completed = true
follows cancelling cancelled = true
follows cancelling failed = true
follows completed completed = true
follows failed failed = true
follows timedout timedout = true
follows cancelled cancelled = true
follows _ _ = false

pub transition_accepted :
    (s t : RunStatus) (ctx : TransitionContext)
    → (transition s t ctx).success ≡ true
    → ((transition s t ctx).new_status ≡ t) × (follows s t ≡ true)
unfolding transition follows
transition_accepted created created ctx h = ground arith
transition_accepted s t ctx h = ground arith

-- A run that begins is never stopped between STARTING and RUNNING.
pub transition_starting :
    (ctx : TransitionContext)
    → ((transition starting running ctx).success ≡ true)
      × ((transition starting running ctx).new_status ≡ running)
unfolding transition
transition_starting ctx = (refl, refl)

-- An edge that some context opens.
abbrev pub IsTarget : RunStatus → RunStatus → Type 0
IsTarget s t = (ctx : TransitionContext) × ((transition s t ctx).success ≡ true)

abbrev open_context : TransitionContext
open_context = record { items_completed = 0; items_total = 0; has_checkpoint = true; force = true }

-- Outside the terminal statuses, `valid_targets` lists the targets that some context reaches.
pub valid_targets_sound :
    (s t : RunStatus) → any (same_status t) (valid_targets s) ≡ true → IsTarget s t
unfolding valid_targets transition
valid_targets_sound created created h = (open_context, ground arith)
valid_targets_sound s t h = (open_context, ground arith)

pub valid_targets_complete :
    (s t : RunStatus) (ctx : TransitionContext)
    → is_terminal s ≡ false
    → (transition s t ctx).success ≡ true
    → any (same_status t) (valid_targets s) ≡ true
unfolding valid_targets transition
valid_targets_complete created created ctx n h = ground arith
valid_targets_complete s t ctx n h = ground arith

-- Outside the terminal statuses, a target is in `valid_targets` exactly when some context reaches it.
pub valid_targets-IsTarget :
    (s t : RunStatus)
    → is_terminal s ≡ false
    → (any (same_status t) (valid_targets s) ≡ true) ↔ IsTarget s t
valid_targets-IsTarget s t n = (valid_targets_sound s t, λ r. valid_targets_complete s t r.0 n r.1)

-- Where a move to CANCELLED fails by one guard, which prints two numbers, both are the completed items,
-- though the second stands for the total, which is larger.
pub cancel_refusal_misprints :
    (s : RunStatus) (ctx : TransitionContext) (a b : ℕ)
    → (transition s cancelled ctx).guard_failures ≡ not_all_items a b ∷ []
    → (a ≡ ctx.items_completed) × (b ≡ ctx.items_completed) × (b < ctx.items_total)
unfolding transition
cancel_refusal_misprints created ctx a b h = ground arith
cancel_refusal_misprints s ctx a b h = ground arith

-- Any number of edges, under one context.
pub data Route (ctx : TransitionContext) : RunStatus → RunStatus → Type 0 where
  here : {s : RunStatus} → Route ctx s s
  along : {s t u : RunStatus} → Edge ctx s t → Route ctx t u → Route ctx s u

-- From every status that is not terminal a route of open edges leads to FAILED, whatever the context.
pub Route-failed :
    (s : RunStatus) (ctx : TransitionContext) → is_terminal s ≡ false → Route ctx s failed
Route-failed created ctx h = along queue (along begin (along fail_starting here))
Route-failed queued ctx h = along begin (along fail_starting here)
Route-failed starting ctx h = along fail_starting here
Route-failed running ctx h = along fail here
Route-failed paused ctx h = along cancel_paused (along fail_cancelling here)
Route-failed cancelling ctx h = along fail_cancelling here
Route-failed _ ctx h = cc

Route-ending :
    (ctx : TransitionContext) {s t : RunStatus}
    → ctx.items_completed < ctx.items_total
    → ctx.force ≡ false
    → Route ctx s t
    → t ≡ completed
    → s ≡ completed
Route-ending ctx lt f here e = e
Route-ending ctx lt f (along step r) e = back step (Route-ending ctx lt f r e)
  where
    back : {a b : RunStatus} → Edge ctx a b → b ≡ completed → a ≡ completed
    back (complete h) p = absurd (omega arith)
    back (complete_cancelling h) p = ground arith
    back (stay h) p = p
    back queue p = cc
    back _ p = cc

-- Under a context in which items are missing and nothing is forced, no route of open edges leads from
-- another status to COMPLETED.
pub Route-completed :
    (ctx : TransitionContext) (s : RunStatus)
    → ctx.items_completed < ctx.items_total
    → ctx.force ≡ false
    → s ≢ completed
    → ¬ Route ctx s completed
Route-completed ctx s lt f n r = n (Route-ending ctx lt f r refl)
