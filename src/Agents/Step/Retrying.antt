-- ===== src/Agents/Step/Retrying.antt =====
-- What becomes of a step that has failed.
use redops.Base.{String, ◌≡◌, true, false, Bool, Clock, List, [], ◌∷◌, arith}
use redops.Ai.{StepStatus, failed, skipped, cancelled, retrying}
use redops.Agents.Step.{StepResult, AgentStep, Method, start, complete, fail, retry, skip, cancel}

pub data Request (D : Type 0) : Type 0 where
  to_start to_retry to_skip to_cancel : Request D
  to_complete : StepResult D → Request D
  to_fail : D → String → Request D

-- The statuses of a step that has failed once, or was passed over.
unfoldable pub is_set_aside : StepStatus → Bool
is_set_aside failed = true
is_set_aside retrying = true
is_set_aside skipped = true
is_set_aside cancelled = true
is_set_aside _ = false

module _ {D : Type 0} where
  unfoldable pub serve : Request D → Method D
  unfolding start complete fail retry skip cancel
  serve to_start = start
  serve to_retry = retry
  serve to_skip = skip
  serve to_cancel = cancel
  serve (to_complete r) = complete r
  serve (to_fail d e) = fail d e

  unfoldable pub serve_all : List (Request D × Clock) → AgentStep D → AgentStep D
  serve_all [] step = step
  serve_all ((q, now) ∷ qs) step = serve_all qs (serve q now step).self

  serve_set_aside :
      (q : Request D) (now : Clock) (step : AgentStep D)
      → is_set_aside step.status ≡ true
      → is_set_aside (serve q now step).self.status ≡ true
  unfolding serve is_set_aside
  serve_set_aside to_start now step h = ground arith
  serve_set_aside q now step h = ground arith

  -- A step that has failed never runs again, and is never completed: no sequence of calls leads it
  -- back, `retry` included.
  pub serve_all_set_aside :
      (qs : List (Request D × Clock)) (step : AgentStep D)
      → is_set_aside step.status ≡ true
      → is_set_aside (serve_all qs step).status ≡ true
  unfolding serve_all
  serve_all_set_aside [] step h = h
  serve_all_set_aside ((q, now) ∷ qs) step h =
      serve_all_set_aside qs (serve q now step).self (serve_set_aside q now step h)
