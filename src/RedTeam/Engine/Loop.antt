-- ===== src/RedTeam/Engine/Loop.antt =====
-- campaign_engine.py, `run_campaign`: the replay of durable rounds, the loop of new rounds, and the
-- terminal state. The loop takes fuel.
use redops.Base.{
  ℕ, zero, suc, String, true, false, Option, none, some, List, [], ◌∷◌, if◌then◌else◌, Float, ok,
  raised,
}
use redops.RedTeam.Campaign.{
  CampaignState, created, running, paused, budget_exhausted, completed, cancelled, failed,
  same_state, is_active, Round, Campaign, CampaignError, start, complete, fail, exhaust_budget,
  cancel, can_continue, record_round, current_round,
}
use redops.RedTeam.Campaign.Report.{CampaignResult, build_result}
use redops.RedTeam.Engine.{
  Environment, RoundOutcome, finished, stopped, not_saved, broke, execute_round, should_stop_early,
  advise,
}

-- How the loop ends: normally (its test, an early stop, a cancellation), by an exception, by the
-- persistence error that is raised again, or not within the fuel.
pub data LoopEnd (F : Type 0) : Type 0 where
  left : Campaign F → LoopEnd F
  raised_in : String → Campaign F → LoopEnd F
  unsaved_in : Campaign F → LoopEnd F
  no_fuel : LoopEnd F

-- What `run_campaign` does: it returns a result, or raises a `ConflictError` of `start` or the
-- persistence error; `unfinished` stands for a loop that has run out of fuel.
pub data RunEnd (F : Type 0) : Type 0 where
  returned : Campaign F → CampaignResult F → RunEnd F
  conflict : CampaignError → RunEnd F
  persistence_error : Campaign F → RunEnd F
  unfinished : RunEnd F

-- The reason of a terminal state that is none.
unfoldable pub unexpected : CampaignState → String
unexpected created = "terminal replay with unexpected state created"
unexpected running = "terminal replay with unexpected state running"
unexpected paused = "terminal replay with unexpected state paused"
unexpected completed = "terminal replay with unexpected state completed"
unexpected failed = "terminal replay with unexpected state failed"
unexpected budget_exhausted = "terminal replay with unexpected state budget_exhausted"
unexpected cancelled = "terminal replay with unexpected state cancelled"

module _ {F : Type 0} ⦃fl : Float F⦄ where
  -- The replay of the rounds of an earlier attempt. The campaign is running, so that `record_round`
  -- does not raise.
  unfoldable pub replay : List (Round F) → Campaign F → Campaign F
  replay [] c = c
  replay (r ∷ rs) c =
      let d = (record_round r c).self in
      let rest = replay rs (advise d) in if should_stop_early d r then d else rest

  -- What follows a round: a finished one is recorded, and the loop stops early or goes on.
  unfoldable pub proceed : (Campaign F → LoopEnd F) → Campaign F → RoundOutcome F → LoopEnd F
  proceed again c stopped = left c
  proceed again c not_saved = unsaved_in c
  proceed again c (broke m) = raised_in m c
  proceed again c (finished r) =
      let d = (record_round r c).self in
      elim (should_stop_early d r) [ true ↦ left d | false ↦ again (advise d) ]

  -- `while campaign.can_continue():`
  unfoldable pub loop : ℕ → Environment F → Campaign F → LoopEnd F
  unfolding proceed
  loop zero env c = no_fuel
  loop (suc fuel) env c = elim (can_continue (env.round_clock (current_round c)) c) [
    | false ↦ left c
    | true ↦ proceed (loop fuel env) c (execute_round env c)
  ]

  -- `if not campaign.can_continue(): … exhaust_budget(…) else: campaign.complete()`
  unfoldable pub close : Environment F → Campaign F → Campaign F
  close env c =
      if can_continue env.close_clock c
      then (complete env.end_clock c).self
      else (exhaust_budget env.end_clock c).self

  -- The branches after the loop where no terminal state is given.
  unfoldable pub settle : Environment F → Campaign F → Campaign F
  unfolding close
  settle env c =
      if env.poll_at_end
      then (if is_active c.state then (cancel env.end_clock c).self else c)
      else if same_state c.state running
      then close env c
      else c

  -- `_apply_terminal_state`
  unfoldable pub apply_terminal_state : CampaignState → Environment F → Campaign F → Campaign F
  apply_terminal_state s env c =
      if same_state s completed
      then (complete env.end_clock c).self
      else if same_state s cancelled
      then (cancel env.end_clock c).self
      else if same_state s failed
      then (fail "redelivery of failed run" env.end_clock c).self
      else (fail (unexpected s) env.end_clock c).self

  -- The handler of the other exceptions.
  unfoldable pub recover : String → Environment F → Campaign F → Campaign F
  recover m env c = if is_active c.state then (fail m env.end_clock c).self else c

  unfoldable pub report : Environment F → Campaign F → RunEnd F
  report env c = returned c (build_result env.report_clock c)

  unfoldable pub after_loop : Environment F → LoopEnd F → RunEnd F
  unfolding settle recover report
  after_loop env (left c) = report env (settle env c)
  after_loop env (raised_in m c) = report env (recover m env c)
  after_loop env (unsaved_in c) = persistence_error c
  after_loop env no_fuel = unfinished

  -- The body of the `try`, on a campaign that has started.
  unfoldable pub run_started_campaign :
      ℕ → Environment F → List (Round F) → Option CampaignState → Campaign F → RunEnd F
  unfolding after_loop apply_terminal_state report unexpected
  run_started_campaign fuel env rounds none c = after_loop env (loop fuel env (replay rounds c))
  run_started_campaign fuel env rounds (some s) c =
      report env (apply_terminal_state s env (replay rounds c))

  unfoldable pub run_campaign :
      ℕ → Environment F → List (Round F) → Option CampaignState → Campaign F → RunEnd F
  run_campaign fuel env rounds terminal c =
      let started = start env.start_clock c in
      elim started.result [
        | ok _ ↦ run_started_campaign fuel env rounds terminal started.self
        | raised e ↦ conflict e
      ]
