-- ===== src/Evaluation/Run/Lifecycle.antt =====
-- What holds of a run over every sequence of calls of its methods.
use redops.Base.{
  ℕ, ◌≤◌, ◌<◌, String, ◌≡◌, ◌≢◌, refl, ◌∙◌, Bool, true, false, List, [], ◌∷◌, arith, length,
  length-snoc, if◌then◌else◌, is_some, ℤ, pos, negsuc, Float, Clock, return, is_ok,
}
use redops.Ai.{
  RunStatus, queued, starting, running, paused, cancelling, completed, failed, timedout, cancelled,
  is_terminal, CancellationReason,
}
use redops.Evaluation.StateMachine.Table.{transition_accepted, transition_starting, follows}
use redops.Evaluation.Run.{
  EvaluationRun, evaluation_queued, evaluation_started, evaluation_paused, evaluation_resumed,
  evaluation_completed, evaluation_failed, evaluation_timed_out, evaluation_cancelled, duration_ms,
  or_zero, RunCheckpoint, RunCall, Setup, context, new_run, queue, start, pause, resume, complete,
  fail, timeout, cancel, record_item_success, record_item_failure, record_token_usage, record_cost,
  record_latency, save_checkpoint,
}

-- The methods that write, as requests.
pub data Request (F : Type 0) : Type 0 where
  to_queue : Request F
  to_start : ℤ → Request F
  to_pause : Request F
  to_resume : Request F
  to_complete : Request F
  to_fail : String → String → Request F
  to_timeout : Request F
  to_cancel : CancellationReason → Bool → Request F
  item_success : Request F
  item_failure : Request F
  token_usage : ℕ → ℕ → Request F
  cost : F → Request F
  latency : ℕ → Request F
  checkpoint : RunCheckpoint → Request F

-- The statuses of a run that has been started, that has ended by itself, and that was cancelled.
unfoldable pub has_begun : RunStatus → Bool
has_begun running = true
has_begun paused = true
has_begun cancelling = true
has_begun completed = true
has_begun timedout = true
has_begun _ = false

unfoldable pub has_ended : RunStatus → Bool
has_ended completed = true
has_ended failed = true
has_ended timedout = true
has_ended _ = false

unfoldable pub is_withdrawn : RunStatus → Bool
is_withdrawn cancelling = true
is_withdrawn cancelled = true
is_withdrawn _ = false

-- What holds of a run between two calls.
pub record IsCoherent {F : Type 0} (r : EvaluationRun F) : Type 0 where
  pub failed_le : r.items_failed ≤ r.items_completed
  pub settled : r.status ≢ starting
  pub begun : has_begun r.status ≡ true → is_some r.started_at ≡ true
  pub ended : has_ended r.status ≡ true → is_some r.completed_at ≡ true
  pub summed : r.status ≡ failed → is_some r.failure_summary ≡ true
  pub withdrawn :
      is_withdrawn r.status ≡ true
      → (is_some r.cancelled_at ≡ true) × (is_some r.cancellation_reason ≡ true)
  pub counted : length r.events < r.version

module _ {F : Type 0} ⦃fl : Float F⦄ where
  unfoldable pub serve : Request F → Clock → EvaluationRun F → RunCall F
  unfolding queue start pause resume complete fail timeout cancel record_item_success
      record_item_failure record_token_usage record_cost record_latency save_checkpoint
  serve to_queue now r = queue now r
  serve (to_start n) now r = start n now r
  serve to_pause now r = pause now r
  serve to_resume now r = resume now r
  serve to_complete now r = complete now r
  serve (to_fail c m) now r = fail c m now r
  serve to_timeout now r = timeout now r
  serve (to_cancel why force) now r = cancel why force now r
  serve item_success now r = return (record_item_success now r) tt
  serve item_failure now r = return (record_item_failure now r) tt
  serve (token_usage i o) now r = return (record_token_usage i o now r) tt
  serve (cost c) now r = return (record_cost c now r) tt
  serve (latency l) now r = return (record_latency l now r) tt
  serve (checkpoint c) now r = return (save_checkpoint c now r) tt

  unfoldable pub serve_all : List (Request F × Clock) → EvaluationRun F → EvaluationRun F
  serve_all [] r = r
  serve_all ((q, now) ∷ qs) r = serve_all qs (serve q now r).self

  -- A call on a run that raises changes nothing, `items_total` and `cancellation_reason` apart, which
  -- `start` and `cancel` write first.
  pub run_refused :
      (q : Request F) (now : Clock) (r : EvaluationRun F)
      → is_ok (serve q now r) ≡ false
      → let r' = (serve q now r).self in
        r' ≡ record r { items_total = r'.items_total; cancellation_reason = r'.cancellation_reason }
  unfolding serve
  run_refused to_queue now r h = ground arith
  run_refused (to_start (pos n)) now r h =
      let ctx = context false (record r { items_total = n }) in
      ground (arith, transition_accepted r.status starting ctx, transition_starting ctx)
  run_refused (to_start (negsuc n)) now r h = ground arith
  run_refused q now r h = ground arith

  serve-IsCoherent :
      (q : Request F) (now : Clock) (r : EvaluationRun F)
      → IsCoherent r
      → IsCoherent (serve q now r).self
  unfolding serve has_begun has_ended is_withdrawn follows
  serve-IsCoherent to_queue now r h = ground (
    arith,
    transition_accepted r.status queued (context false r),
    length-snoc r.events (evaluation_queued r.setup.id r.setup.evaluation_name r.setup.priority),
  )
  serve-IsCoherent (to_start (pos n)) now r h =
      let ctx = context false (record r { items_total = n }) in
      ground (
        arith,
        transition_accepted r.status starting ctx,
        transition_starting ctx,
        length-snoc r.events
            (evaluation_started r.setup.id r.setup.provider_name r.setup.model_id n),
      )
  serve-IsCoherent to_pause now r h = ground (
    arith,
    transition_accepted r.status paused (context false r),
    length-snoc r.events (evaluation_paused r.setup.id r.items_completed r.items_total),
  )
  serve-IsCoherent to_resume now r h = ground (
    arith,
    transition_accepted r.status running (context false r),
    length-snoc r.events (evaluation_resumed r.setup.id r.items_completed r.items_total),
  )
  serve-IsCoherent to_complete now r h = ground (
    arith,
    transition_accepted r.status completed (context false r),
    length-snoc r.events (
        evaluation_completed r.setup.id r.items_completed r.items_total
          (duration_ms fl r.started_at (now 1))),
  )
  serve-IsCoherent (to_fail c m) now r h = ground (
    arith,
    transition_accepted r.status failed (context false r),
    length-snoc r.events (evaluation_failed r.setup.id c m r.items_completed r.items_total),
  )
  serve-IsCoherent to_timeout now r h = ground (
    arith,
    transition_accepted r.status timedout (context false r),
    length-snoc r.events (
        evaluation_timed_out r.setup.id (or_zero r.setup.max_duration_seconds) r.items_completed
          r.items_total),
  )
  serve-IsCoherent (to_cancel why force) now r h = ground (
    arith,
    transition_accepted r.status (if force then cancelled else cancelling) (context force r),
    length-snoc r.events
        (evaluation_cancelled r.setup.id why force r.items_completed r.items_total),
  )
  serve-IsCoherent item_success now r h = ground arith
  serve-IsCoherent item_failure now r h = ground arith
  serve-IsCoherent q now r h = ground arith

  -- From a coherent run, every sequence of calls leads to a coherent run: no more items have failed than
  -- were processed, the run never rests in STARTING, it has a start, an end, a summary of its failure and
  -- a reason and time of its cancellation where its status asks for them, and it has raised fewer events
  -- than its version says.
  pub serve_all-IsCoherent :
      (qs : List (Request F × Clock)) (r : EvaluationRun F)
      → IsCoherent r
      → IsCoherent (serve_all qs r)
  unfolding serve_all
  serve_all-IsCoherent [] r h = h
  serve_all-IsCoherent ((q, now) ∷ qs) r h =
      serve_all-IsCoherent qs (serve q now r).self (serve-IsCoherent q now r h)

  pub new_run-IsCoherent : (now : ℕ) (setup : Setup) → IsCoherent (new_run fl.nought now setup)
  unfolding new_run has_begun has_ended is_withdrawn
  new_run-IsCoherent now setup = ground arith

  serve_terminal :
      (q : Request F) (now : Clock) (r : EvaluationRun F)
      → is_terminal r.status ≡ true
      → (serve q now r).self.status ≡ r.status
  unfolding serve follows
  serve_terminal to_queue now r h =
      ground (arith, transition_accepted r.status queued (context false r))
  serve_terminal (to_start (pos n)) now r h =
      ground (
        arith,
        transition_accepted r.status starting (context false (record r { items_total = n })),
      )
  serve_terminal (to_start (negsuc n)) now r h = refl
  serve_terminal to_pause now r h =
      ground (arith, transition_accepted r.status paused (context false r))
  serve_terminal to_resume now r h =
      ground (arith, transition_accepted r.status running (context false r))
  serve_terminal to_complete now r h =
      ground (arith, transition_accepted r.status completed (context false r))
  serve_terminal (to_fail c m) now r h =
      ground (arith, transition_accepted r.status failed (context false r))
  serve_terminal to_timeout now r h =
      ground (arith, transition_accepted r.status timedout (context false r))
  serve_terminal (to_cancel why force) now r h = ground (
    arith,
    transition_accepted r.status (if force then cancelled else cancelling) (context force r),
  )
  serve_terminal q now r h = refl

  -- A run in a terminal status keeps it under every sequence of calls.
  pub serve_all_terminal :
      (qs : List (Request F × Clock)) (r : EvaluationRun F)
      → is_terminal r.status ≡ true
      → (serve_all qs r).status ≡ r.status
  unfolding serve_all
  serve_all_terminal [] r h = refl
  serve_all_terminal ((q, now) ∷ qs) r h =
      let e = serve_terminal q now r h in serve_all_terminal qs (serve q now r).self (rw e h) ∙ e
