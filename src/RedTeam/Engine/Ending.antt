-- ===== src/RedTeam/Engine/Ending.antt =====
-- How `run_campaign` ends: its loop on the fuel, its states, and its rounds.
use redops.Base.{
  ℕ, zero, suc, ◌+◌, ◌≤◌, ◌<◌, ◌≡◌, ◌∙◌, refl, true, Option, none, some, List, [], ◌∷◌, ◌++◌, arith,
  max, length, length-snoc, Float, inl, inr, Bool-cases,
}
use redops.RedTeam.Campaign.{
  CampaignState, created, running, is_terminal, Round, Campaign, start, complete, fail,
  exhaust_budget, cancel, set_mutation_phase, can_continue, record_round, current_round,
}
use redops.RedTeam.Campaign.Limits.{can_continue_room}
use redops.RedTeam.Engine.{
  Environment, RoundOutcome, finished, stopped, not_saved, broke, execute_round, should_stop_early,
  advise,
}
use redops.RedTeam.Engine.Loop.{
  LoopEnd, left, raised_in, unsaved_in, no_fuel, RunEnd, returned, conflict, persistence_error,
  unfinished, replay, proceed, loop, apply_terminal_state, report, run_started_campaign,
  run_campaign, after_loop,
}

module _ {F : Type 0} ⦃fl : Float F⦄ where
  -- Advice leaves the campaign's state, rounds and budget.
  advise_keeps :
      (c : Campaign F)
      → ((advise c).state ≡ c.state)
        × ((advise c).rounds ≡ c.rounds)
        × ((advise c).budget ≡ c.budget)
  unfolding advise set_mutation_phase
  advise_keeps c = ground arith

  record_running :
      (r : Round F) (c : Campaign F)
      → c.state ≡ running
      → let d = (record_round r c).self in
        (d.state ≡ running) × (d.rounds ≡ c.rounds ++ (r ∷ [])) × (d.budget ≡ c.budget)
  unfolding record_round
  record_running r c h = ground arith

  -- A loop that ends with the campaign running and no more than `n` rounds.
  abbrev Ends : ℕ → LoopEnd F → Type 0
  Ends n (left d) = (d.state ≡ running) × (length d.rounds ≤ n)
  Ends n (raised_in m d) = (d.state ≡ running) × (length d.rounds ≤ n)
  Ends n (unsaved_in d) = (d.state ≡ running) × (length d.rounds ≤ n)
  Ends n no_fuel = ⊥

  proceed-Ends :
      (again : Campaign F → LoopEnd F) (n : ℕ) (c : Campaign F) (o : RoundOutcome F)
      → c.state ≡ running
      → length c.rounds < n
      → ((d : Campaign F)
          → d.state ≡ running
          → length d.rounds ≡ length c.rounds + 1
          → d.budget ≡ c.budget
          → Ends n (again d))
      → Ends n (proceed again c o)
  unfolding proceed
  proceed-Ends again n c stopped h l ih = (h, omega arith)
  proceed-Ends again n c not_saved h l ih = (h, omega arith)
  proceed-Ends again n c (broke m) h l ih = (h, omega arith)
  proceed-Ends again n c (finished r) h l ih =
      let d = (record_round r c).self in
      let (running_d, rounds_d, budget_d) = record_running r c h in
      let (same_state, same_rounds, same_budget) = advise_keeps d in
      let longer : length d.rounds ≡ length c.rounds + 1 = rw rounds_d (length-snoc c.rounds r) in
      elim (Bool-cases (should_stop_early d r)) [
        | inl e ↦ rw (e, Ends) (running_d, omega (arith, longer))
        | inr e ↦
            rw (e, Ends)
              (ih (advise d) (same_state ∙ running_d) (rw same_rounds longer)
                (same_budget ∙ budget_d))
      ]

  -- The loop ends within a fuel above the number of rounds that the budget still allows.
  loop-Ends :
      (fuel n : ℕ) (env : Environment F) (c : Campaign F)
      → c.state ≡ running
      → 0 < fuel
      → c.budget.max_rounds < fuel + length c.rounds
      → length c.rounds ≤ n
      → c.budget.max_rounds ≤ n
      → Ends n (loop fuel env c)
  unfolding loop
  loop-Ends zero n env c h f b l m = elim f [ ]
  loop-Ends (suc fuel) n env c h f b l m =
      elim (Bool-cases (can_continue (env.round_clock (current_round c)) c)) [
        | inl more ↦
            let room = can_continue_room (env.round_clock (current_round c)) c more in
            rw (more, Ends)
              (proceed-Ends (loop fuel env) n c (execute_round env c) h (omega (arith, room.0))
                (λ d running_d longer same.
                  loop-Ends fuel n env d running_d (omega (arith, room.0))
                    (rw (same, longer) (omega arith)) (omega (arith, room.0, longer)) (rw same m)))
        | inr over ↦ rw (over, Ends) (h, l)
      ]

  replay_running :
      (rs : List (Round F)) (c : Campaign F)
      → c.state ≡ running
      → let d = replay rs c in
        (d.state ≡ running)
        × (length d.rounds ≤ length c.rounds + length rs)
        × (d.budget ≡ c.budget)
  unfolding replay
  replay_running [] c h = (h, omega arith, refl)
  replay_running (r ∷ rs) c h =
      let d = (record_round r c).self in
      ground (
        arith,
        record_running r c h,
        advise_keeps d,
        length-snoc c.rounds r,
        replay_running rs (advise d),
      )

  -- The campaign of a run that returned is over, and has no more than `n` rounds; the only other end is
  -- the persistence error, within the same bound.
  abbrev pub Concludes : ℕ → RunEnd F → Type 0
  Concludes n (returned c r) = (is_terminal c.state ≡ true) × (length c.rounds ≤ n)
  Concludes n (conflict e) = ⊥
  Concludes n (persistence_error c) = length c.rounds ≤ n
  Concludes n unfinished = ⊥

  after_loop-Concludes :
      (n : ℕ) (env : Environment F) (e : LoopEnd F) → Ends n e → Concludes n (after_loop env e)
  unfolding after_loop complete fail exhaust_budget cancel
  after_loop-Concludes n env (left d) h = ground arith
  after_loop-Concludes n env (raised_in m d) h = ground arith
  after_loop-Concludes n env (unsaved_in d) h = h.1
  after_loop-Concludes n env no_fuel h = elim h [ ]

  start_running :
      (env : Environment F) (c : Campaign F)
      → c.state ≡ created
      → ((start env.start_clock c).self.state ≡ running)
        × ((start env.start_clock c).self.rounds ≡ c.rounds)
        × ((start env.start_clock c).self.budget ≡ c.budget)
  unfolding start
  start_running env c h = ground arith

  apply_running :
      (s : CampaignState) (env : Environment F) (c : Campaign F)
      → c.state ≡ running
      → (is_terminal (apply_terminal_state s env c).state ≡ true)
        × ((apply_terminal_state s env c).rounds ≡ c.rounds)
  unfolding apply_terminal_state complete fail cancel
  apply_running s env c h = ground arith

  settle-Concludes :
      (fuel n : ℕ) (env : Environment F) (resume : List (Round F)) (t : Option CampaignState)
      (c : Campaign F)
      → c.state ≡ running
      → c.budget.max_rounds < fuel
      → length c.rounds + length resume ≤ n
      → c.budget.max_rounds ≤ n
      → Concludes n (run_started_campaign fuel env resume t c)
  unfolding run_started_campaign report
  settle-Concludes fuel n env resume (some s) c h f l m =
      let (running_d, rounds_d, _) = replay_running resume c h in
      let (over, same) = apply_running s env (replay resume c) running_d in
      (over, rw same (omega (arith, rounds_d)))
  settle-Concludes fuel n env resume none c h f l m =
      let (running_d, rounds_d, budget_d) = replay_running resume c h in
      after_loop-Concludes n env (loop fuel env (replay resume c)) (
        loop-Ends fuel n env (replay resume c) running_d (omega arith) (rw budget_d (omega arith))
          (omega (arith, rounds_d)) (rw budget_d m))

  -- A campaign that `run_campaign` takes from the state created, on a fuel above its budget of
  -- rounds, is returned in a terminal state, with no more rounds than its budget allows or than it had
  -- together with those to be replayed, or the persistence error of a checkpoint is raised, within the
  -- same bound. Neither an exception nor a loop without end is left, whatever the environment does.
  pub run_campaign-Concludes :
      (fuel : ℕ) (env : Environment F) (resume : List (Round F)) (t : Option CampaignState)
      (c : Campaign F)
      → c.state ≡ created
      → c.budget.max_rounds < fuel
      → Concludes
          (max (length c.rounds + length resume) c.budget.max_rounds)
          (run_campaign fuel env resume t c)
  unfolding run_campaign start
  run_campaign-Concludes fuel env resume t c h f =
      let (running_d, rounds_d, budget_d) = start_running env c h in
      let n = max (length c.rounds + length resume) c.budget.max_rounds in
      rw (h, Concludes)
        (settle-Concludes fuel n env resume t (start env.start_clock c).self running_d
          (rw budget_d f) (rw rounds_d (omega arith)) (rw budget_d (omega arith)))
