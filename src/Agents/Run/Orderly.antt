-- ===== src/Agents/Run/Orderly.antt =====
-- What holds of an agent run over every sequence of calls of its methods.
use redops.Base.{
  ℕ, ◌≤◌, ◌≡◌, String, Bool, true, false, List, [], ◌∷◌, arith, is_some, ℤ, pos, negsuc, Float,
  Clock, return,
}
use redops.Ai.{
  RunStatus, starting, running, paused, cancelling, completed, failed, timedout, cancelled,
  CancellationReason,
}
use redops.Agents.Transitions.{can_transition_to}
use redops.Agents.Run.{
  AgentRun, RunCall, Setup, new_run, queue, start, complete, fail, timeout, cancel,
  record_step_success, record_step_failure, record_token_usage, record_cost, record_latency,
  save_checkpoint,
}

pub data Request (F : Type 0) : Type 0 where
  to_queue to_complete to_timeout step_success step_failure : Request F
  to_start : ℤ → Request F
  to_fail : String → String → Request F
  to_cancel : CancellationReason → Bool → Request F
  token_usage : ℕ → ℕ → Request F
  cost : F → Request F
  latency : ℕ → Request F
  checkpoint : ℕ → Request F

-- The statuses in which a run rests: STARTING and PAUSED are not among them.
unfoldable pub is_resting : RunStatus → Bool
is_resting starting = false
is_resting paused = false
is_resting _ = true

unfoldable pub has_begun : RunStatus → Bool
has_begun running = true
has_begun cancelling = true
has_begun completed = true
has_begun failed = true
has_begun timedout = true
has_begun _ = false

unfoldable pub has_ended : RunStatus → Bool
has_ended completed = true
has_ended failed = true
has_ended timedout = true
has_ended cancelled = true
has_ended _ = false

unfoldable pub is_withdrawn : RunStatus → Bool
is_withdrawn cancelling = true
is_withdrawn cancelled = true
is_withdrawn _ = false

pub record IsOrderly {F : Type 0} (r : AgentRun F) : Type 0 where
  pub failed_le : r.steps_failed ≤ r.steps_completed
  pub resting : is_resting r.status ≡ true
  pub begun : has_begun r.status ≡ true → is_some r.started_at ≡ true
  pub ended : has_ended r.status ≡ true → is_some r.completed_at ≡ true
  pub summed : r.status ≡ failed → is_some r.failure_summary ≡ true
  pub withdrawn :
      is_withdrawn r.status ≡ true
      → (is_some r.cancelled_at ≡ true) × (is_some r.cancellation_reason ≡ true)

module _ {F : Type 0} ⦃fl : Float F⦄ where
  unfoldable pub serve : Request F → Clock → AgentRun F → RunCall F
  unfolding queue start complete fail timeout cancel record_step_success record_step_failure
      record_token_usage record_cost record_latency save_checkpoint
  serve to_queue now r = queue now r
  serve to_complete now r = complete now r
  serve to_timeout now r = timeout now r
  serve step_success now r = return (record_step_success now r) tt
  serve step_failure now r = return (record_step_failure now r) tt
  serve (to_start n) now r = start n now r
  serve (to_fail c m) now r = fail c m now r
  serve (to_cancel why force) now r = cancel why force now r
  serve (token_usage i o) now r = return (record_token_usage i o now r) tt
  serve (cost c) now r = return (record_cost c now r) tt
  serve (latency l) now r = return (record_latency l now r) tt
  serve (checkpoint n) now r = return (save_checkpoint n r) tt

  unfoldable pub serve_all : List (Request F × Clock) → AgentRun F → AgentRun F
  serve_all [] r = r
  serve_all ((q, now) ∷ qs) r = serve_all qs (serve q now r).self

  serve-IsOrderly :
      (q : Request F) (now : Clock) (r : AgentRun F) → IsOrderly r → IsOrderly (serve q now r).self
  unfolding serve is_resting has_begun has_ended is_withdrawn can_transition_to
  serve-IsOrderly to_queue now r h = ground arith
  serve-IsOrderly to_complete now r h = ground arith
  serve-IsOrderly to_timeout now r h = ground arith
  serve-IsOrderly (to_start (pos n)) now r h = ground arith
  serve-IsOrderly (to_start (negsuc n)) now r h = ground arith
  serve-IsOrderly (to_fail c m) now r h = ground arith
  serve-IsOrderly (to_cancel why force) now r h = ground arith
  serve-IsOrderly q now r h = ground arith

  pub new_run-IsOrderly : (now : ℕ) (setup : Setup) → IsOrderly (new_run fl.nought now setup)
  unfolding new_run is_resting has_begun has_ended is_withdrawn
  new_run-IsOrderly now setup = ground arith

  -- From an orderly agent run, every sequence of calls leads to an orderly one: no more steps have
  -- failed than were processed, the run is neither in STARTING nor in PAUSED, and it has a start, an end,
  -- a summary of its failure, and a reason and time of its cancellation where its status asks for them.
  pub serve_all-IsOrderly :
      (qs : List (Request F × Clock)) (r : AgentRun F) → IsOrderly r → IsOrderly (serve_all qs r)
  unfolding serve_all
  serve_all-IsOrderly [] r h = h
  serve_all-IsOrderly ((q, now) ∷ qs) r h =
      serve_all-IsOrderly qs (serve q now r).self (serve-IsOrderly q now r h)
