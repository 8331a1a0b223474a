-- ===== src/Evaluation/StateMachine/Document.antt =====
-- The state machine against docs/evaluation/STATE_MACHINE.md, which lists its transitions in section 3.
use redops.Base.{◌≤◌, ◌≡◌, refl, ◌↔◌, Bool, true, false, not, if◌then◌else◌}
use redops.Ai.{
  RunStatus, created, queued, starting, running, paused, cancelling, completed, failed, timedout,
  cancelled,
}
use redops.Evaluation.StateMachine.{TransitionContext, transition}
use redops.Evaluation.StateMachine.Table.{
  IsDoneOrForced, Edge, queue, begin, cancel_queued, activate, fail_starting, pause, begin_cancel,
  complete, fail, time_out, cancel_running, resume, cancel_paused, complete_cancelling,
  finish_cancel, fail_cancelling, stay, transition_iff_Edge,
}

-- The transitions of section 3.
unfoldable pub documented : RunStatus → RunStatus → Bool
documented created queued = true
documented created failed = true
documented queued starting = true
documented queued cancelling = true
documented starting running = true
documented starting failed = true
documented starting cancelling = true
documented running completed = true
documented running failed = true
documented running paused = true
documented running cancelling = true
documented running timedout = true
documented paused running = true
documented paused cancelling = true
documented cancelling completed = true
documented cancelling failed = true
documented _ _ = false

-- The pairs of statuses on which the code and the document differ.
unfoldable pub departs : RunStatus → RunStatus → Bool
departs created failed = true
departs queued cancelling = true
departs starting cancelling = true
departs queued cancelled = true
departs running cancelled = true
departs cancelling cancelled = true
departs completed completed = true
departs failed failed = true
departs timedout timedout = true
departs cancelled cancelled = true
departs _ _ = false

-- The condition of a transition.
abbrev pub Condition : TransitionContext → RunStatus → RunStatus → Type 0
Condition ctx running completed = ctx.items_total ≤ ctx.items_completed
Condition ctx paused running = ctx.has_checkpoint ≡ true
Condition ctx cancelling completed = IsDoneOrForced ctx
Condition ctx queued cancelled = IsDoneOrForced ctx
Condition ctx running cancelled = IsDoneOrForced ctx
Condition ctx cancelling cancelled = IsDoneOrForced ctx
Condition ctx _ _ = Unit

abbrev pub Permits : TransitionContext → RunStatus → RunStatus → Type 0
Permits ctx s t =
    ((if departs s t then not (documented s t) else documented s t) ≡ true) × Condition ctx s t

Edge-Permits : (ctx : TransitionContext) {s t : RunStatus} → Edge ctx s t → Permits ctx s t
unfolding documented departs
Edge-Permits ctx (cancel_queued h) = (refl, h)
Edge-Permits ctx (complete h) = (refl, h)
Edge-Permits ctx (cancel_running h) = (refl, h)
Edge-Permits ctx (resume h) = (refl, h)
Edge-Permits ctx (complete_cancelling h) = (refl, h)
Edge-Permits ctx (finish_cancel h) = (refl, h)
Edge-Permits ctx (stay {s = completed} h) = (refl, tt)
Edge-Permits ctx (stay {s = failed} h) = (refl, tt)
Edge-Permits ctx (stay {s = timedout} h) = (refl, tt)
Edge-Permits ctx (stay {s = cancelled} h) = (refl, tt)
Edge-Permits ctx (stay h) = cc
Edge-Permits ctx _ = (refl, tt)

Permits-Edge : (ctx : TransitionContext) (s t : RunStatus) → Permits ctx s t → Edge ctx s t
unfolding documented departs
Permits-Edge ctx created queued h = queue
Permits-Edge ctx queued starting h = begin
Permits-Edge ctx queued cancelled h = cancel_queued h.1
Permits-Edge ctx starting running h = activate
Permits-Edge ctx starting failed h = fail_starting
Permits-Edge ctx running paused h = pause
Permits-Edge ctx running cancelling h = begin_cancel
Permits-Edge ctx running completed h = complete h.1
Permits-Edge ctx running failed h = fail
Permits-Edge ctx running timedout h = time_out
Permits-Edge ctx running cancelled h = cancel_running h.1
Permits-Edge ctx paused running h = resume h.1
Permits-Edge ctx paused cancelling h = cancel_paused
Permits-Edge ctx cancelling completed h = complete_cancelling h.1
Permits-Edge ctx cancelling cancelled h = finish_cancel h.1
Permits-Edge ctx cancelling failed h = fail_cancelling
Permits-Edge ctx completed completed h = stay refl
Permits-Edge ctx failed failed h = stay refl
Permits-Edge ctx timedout timedout h = stay refl
Permits-Edge ctx cancelled cancelled h = stay refl
Permits-Edge ctx s t h = cc

-- `transition` succeeds exactly where its condition holds of the context and the document lists it, but
-- for these: it refuses CREATED to FAILED and QUEUED and STARTING to CANCELLING, which the document
-- lists, and accepts QUEUED, RUNNING and CANCELLING to CANCELLED and each terminal status to itself,
-- which the document does not list.
pub transition_iff_Permits :
    (s t : RunStatus) (ctx : TransitionContext)
    → ((transition s t ctx).success ≡ true) ↔ Permits ctx s t
transition_iff_Permits s t ctx =
    let edge = transition_iff_Edge s t ctx in
    (λ h. Edge-Permits ctx (edge.0 h), λ h. edge.1 (Permits-Edge ctx s t h))
