-- ===== src/Evaluation/Run/Methods.antt =====
-- `EvaluationRun`: what the methods do in the statuses in which the orchestrator calls them.
use redops.Base.{
  ℕ, ◌≤◌, ◌<◌, true, false, String, is_some, ◌≡◌, refl, arith, pos, ok, Float, Clock, Call, is_ok,
}
use redops.Ai.{RunStatus, created, queued, running, paused, completed, failed}
use redops.Evaluation.StateMachine.{transition}
use redops.Evaluation.Run.{EvaluationRun, RunError, queue, start, resume, complete, fail}

-- A call that returns and leaves the run in a status.
pub record Arrives {F : Type 0} (c : Call (EvaluationRun F) RunError Unit) (s : RunStatus)
    : Type 0 where
  pub returns : c.result ≡ ok tt
  pub status : c.self.status ≡ s

module _ {F : Type 0} (now : Clock) (r : EvaluationRun F) where
  pub queue_created : r.status ≡ created → Arrives (queue now r) queued
  unfolding queue transition
  queue_created h = record { returns = refl; status = ground arith }

  pub queue_setup : (queue now r).self.setup ≡ r.setup
  unfolding queue
  queue_setup = ground arith

  pub start_queued : (n : ℕ) → r.status ≡ queued → Arrives (start (pos n) now r) running
  unfolding start transition
  start_queued n h = record { returns = ground arith; status = ground arith }

  pub start_total : (n : ℕ) → r.status ≡ queued → (start (pos n) now r).self.items_total ≡ n
  unfolding start transition
  start_total n h = ground arith

  -- A run that is running cannot be started, but for its total.
  pub start_running :
      (n : ℕ)
      → r.status ≡ running
      → (is_ok (start (pos n) now r) ≡ false) × ((start (pos n) now r).self.status ≡ running)
  unfolding start transition
  start_running n h = (ground arith, ground arith)

  pub fail_running :
      (code text : String) → r.status ≡ running → Arrives (fail code text now r) failed
  unfolding fail transition
  fail_running code text h = record { returns = ground arith; status = ground arith }

  pub fail_queued :
      (code text : String)
      → r.status ≡ queued
      → (is_ok (fail code text now r) ≡ false) × ((fail code text now r).self ≡ r)
  unfolding fail transition
  fail_queued code text h = (ground arith, ground arith)

  pub resume_paused :
      r.status ≡ paused → is_some r.checkpoint ≡ true → Arrives (resume now r) running
  unfolding resume transition
  resume_paused h k = record { returns = ground arith; status = ground arith }

module _ {F : Type 0} ⦃fl : Float F⦄ (now : Clock) (r : EvaluationRun F) where
  pub complete_running :
      r.status ≡ running → r.items_total ≤ r.items_completed → Arrives (complete now r) completed
  unfolding complete transition
  complete_running h k = record { returns = ground arith; status = ground arith }

  pub complete_short :
      r.status ≡ running
      → r.items_completed < r.items_total
      → (is_ok (complete now r) ≡ false) × ((complete now r).self ≡ r)
  unfolding complete transition
  complete_short h k = (ground arith, ground arith)
