-- ===== src/RedTeam/Engine/Resume.antt =====
-- campaign_engine.py, `run_campaign` with `resume_rounds`: a run that takes up the rounds of an
-- earlier attempt, against the run that was not interrupted.
use redops.Base.{
  ℕ, suc, ◌+◌, ◌≡◌, true, false, none, List, [], ◌∷◌, length, ◌∙◌, ap, sym, arith, Float,
}
use redops.RedTeam.Campaign.{Round, Campaign, can_continue, record_round, current_round}
use redops.RedTeam.Engine.{Environment, finished, execute_round, should_stop_early, advise}
use redops.RedTeam.Engine.Loop.{
  LoopEnd, left, replay, proceed, loop, run_started_campaign, after_loop,
}

module _ {F : Type 0} ⦃fl : Float F⦄ where
  -- `Produces env c rs`: from the campaign `c` the loop executes and records the rounds `rs`, and
  -- stops early at none of them.
  pub data Produces (env : Environment F) : Campaign F → List (Round F) → Type 0 where
    nothing : {c : Campaign F} → Produces env c []
    round :
        {c : Campaign F} {r : Round F} {rs : List (Round F)}
        → can_continue (env.round_clock (current_round c)) c ≡ true
        → execute_round env c ≡ finished r
        → should_stop_early (record_round r c).self r ≡ false
        → Produces env (advise (record_round r c).self) rs
        → Produces env c (r ∷ rs)

  loop_goes_on :
      (fuel : ℕ) (env : Environment F) (c : Campaign F) (r : Round F)
      → can_continue (env.round_clock (current_round c)) c ≡ true
      → execute_round env c ≡ finished r
      → loop (suc fuel) env c ≡ proceed (loop fuel env) c (finished r)
  unfolding loop
  loop_goes_on fuel env c r more done = ground arith

  proceed_on :
      (again : Campaign F → LoopEnd F) (c : Campaign F) (r : Round F)
      → should_stop_early (record_round r c).self r ≡ false
      → proceed again c (finished r) ≡ again (advise (record_round r c).self)
  unfolding proceed
  proceed_on again c r h = ground arith

  proceed-left :
      (again : Campaign F → LoopEnd F) (c : Campaign F) (r : Round F)
      → should_stop_early (record_round r c).self r ≡ true
      → proceed again c (finished r) ≡ left (record_round r c).self
  unfolding proceed
  proceed-left again c r h = ground arith

  replay_on :
      (c : Campaign F) (r : Round F) (rs : List (Round F))
      → should_stop_early (record_round r c).self r ≡ false
      → replay (r ∷ rs) c ≡ replay rs (advise (record_round r c).self)
  unfolding replay
  replay_on c r rs h = ground arith

  replay_stops :
      (c : Campaign F) (r : Round F) (rs : List (Round F))
      → should_stop_early (record_round r c).self r ≡ true
      → replay (r ∷ rs) c ≡ (record_round r c).self
  unfolding replay
  replay_stops c r rs h = ground arith

  -- Where the loop executes and records some rounds and stops early at none of them, a run that replays
  -- these rounds goes on as that run would have: on the fuel that is left, its loop ends in the same way
  -- and with the same campaign.
  pub replay_resumes :
      (env : Environment F) (c : Campaign F) (rs : List (Round F)) (fuel : ℕ)
      → Produces env c rs
      → loop (length rs + fuel) env c ≡ loop fuel env (replay rs c)
  unfolding loop replay
  replay_resumes env c [] fuel nothing = ap (λ n. loop n env c) (omega arith)
  replay_resumes env c (r ∷ rs) fuel (round more done early after) =
      let one_more : length (r ∷ rs) + fuel ≡ suc (length rs + fuel) = omega arith in
      ap (λ n. loop n env c) one_more
      ∙ loop_goes_on (length rs + fuel) env c r more done
      ∙ proceed_on (loop (length rs + fuel) env) c r early
      ∙ replay_resumes env (advise (record_round r c).self) rs fuel after
      ∙ sym (ap (loop fuel env) (replay_on c r rs early))

  -- An early stop is not replayed. Where the last durable round is one at which the loop stops early,
  -- the first run leaves the loop there; the run that resumes from it executes a round more, as long as
  -- the budget allows one and no terminal state is given.
  pub early_stop_forgotten :
      (env : Environment F) (c : Campaign F) (r : Round F) (fuel : ℕ)
      → can_continue (env.round_clock (current_round c)) c ≡ true
      → execute_round env c ≡ finished r
      → should_stop_early (record_round r c).self r ≡ true
      → can_continue
          (env.round_clock (current_round (record_round r c).self))
          (record_round r c).self
        ≡ true
      → let d = (record_round r c).self in
        (loop (suc fuel) env c ≡ left d)
        × (run_started_campaign (suc fuel) env (r ∷ []) none c
            ≡ after_loop env (proceed (loop fuel env) d (execute_round env d)))
  unfolding loop run_started_campaign
  early_stop_forgotten env c r fuel more done early again =
      let d = (record_round r c).self in
      (
        loop_goes_on fuel env c r more done ∙ proceed-left (loop fuel env) c r early,
        ground (arith, replay_stops c r [] early),
      )
