-- ===== src/RedTeam/Campaign/Limits.antt =====
-- campaign.py, `CampaignBudget`: the two questions that are put to a budget.
use redops.Base.{◌<◌, ◌≡◌, true, false, arith, is_some, not, Float, Clock}
use redops.RedTeam.Campaign.{Campaign, can_continue, check_budget_violation, current_round}

module _ {F : Type 0} ⦃fl : Float F⦄ where
  -- `can_continue` answers yes exactly where `check_budget_violation` names no limit.
  pub can_continue-check_budget_violation :
      (now : Clock) (c : Campaign F)
      → can_continue now c ≡ not (is_some (check_budget_violation now c))
  unfolding can_continue check_budget_violation
  can_continue-check_budget_violation now c = ground arith

  -- A campaign that may go on has rounds, attacks, tokens and cost below their limits.
  pub can_continue_room :
      (now : Clock) (c : Campaign F)
      → can_continue now c ≡ true
      → (current_round c < c.budget.max_rounds)
        × (current_round c < c.budget.max_attacks)
        × (c.total_tokens < c.budget.max_total_tokens)
        × (fl.ge c.total_cost_usd c.budget.max_cost_usd ≡ false)
  unfolding can_continue
  can_continue_room now c h = ground arith
