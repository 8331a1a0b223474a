-- ===== src/RedTeam/Campaign/Report.antt =====
-- campaign.py, `AdaptiveCampaign.build_result`: what a campaign reports.
use redops.Base.{
  ℕ, ◌+◌, ◌≡◌, Bool, false, Option, none, some, List, [], ◌∷◌, ◌++◌, arith, length, last_or,
  if◌then◌else◌, ◌==◌, Float, Clock,
}
use redops.RedTeam.Campaign.{
  CampaignState, budget_exhausted, same_state, Category, category_position, Effectiveness, Round,
  Limit, Campaign, check_budget_violation,
}

-- The counts of one category while they are gathered, and as they are reported.
pub record Tally (F : Type 0) : Type 0 where
  pub total : ℕ
  pub violations : ℕ
  pub effectiveness : List F

pub record CategoryStats (F : Type 0) : Type 0 where
  pub total : ℕ
  pub violations : ℕ
  pub avg_effectiveness : F

-- `CampaignResult`; a dictionary is the list of its items in their order.
pub record CampaignResult (F : Type 0) : Type 0 where
  pub campaign_id : ℕ
  pub state : CampaignState
  pub total_rounds : ℕ
  pub total_attacks : ℕ
  pub total_tokens : ℕ
  pub total_cost_usd : F
  pub total_duration_ms : ℕ
  pub final_effectiveness : F
  pub peak_effectiveness : F
  pub violation_count : ℕ
  pub severe_violation_count : ℕ
  pub rounds : List (Round F)
  pub budget_violation_reason : Option Limit
  pub category_stats : List (Category × CategoryStats F)
  pub completed_at : ℕ

or_now : Option ℕ → ℕ → ℕ
or_now none now = now
or_now (some t) now = t

module _ {F : Type 0} where
  -- The scores of the rounds that have an effectiveness.
  scores_of : Option (Effectiveness F) → List F
  scores_of none = []
  scores_of (some e) = e.effectiveness_score ∷ []

  effectiveness_scores : List (Round F) → List F
  unfolding scores_of
  effectiveness_scores [] = []
  effectiveness_scores (r ∷ rs) = scores_of r.effectiveness ++ effectiveness_scores rs

  violated : Option (Effectiveness F) → Bool
  violated none = false
  violated (some e) = e.is_violation

  severe : Option (Effectiveness F) → Bool
  severe none = false
  severe (some e) = e.is_violation_severe

  unfoldable pub count_violations : List (Round F) → ℕ
  unfolding violated
  count_violations [] = 0
  count_violations (r ∷ rs) = (if violated r.effectiveness then 1 else 0) + count_violations rs

  count_severe : List (Round F) → ℕ
  unfolding severe
  count_severe [] = 0
  count_severe (r ∷ rs) = (if severe r.effectiveness then 1 else 0) + count_severe rs

  durations : List (Round F) → ℕ
  durations [] = 0
  durations (r ∷ rs) = r.duration_ms + durations rs

  -- One round in the dictionary of its category.
  add_to : Round F → Tally F → Tally F
  unfolding violated scores_of
  add_to r t = record {
    total = t.total + 1;
    violations = t.violations + (if violated r.effectiveness then 1 else 0);
    effectiveness = t.effectiveness ++ scores_of r.effectiveness;
  }

  tally : Round F → List (Category × Tally F) → List (Category × Tally F)
  unfolding add_to
  tally r [] =
      (r.attack_category, add_to r (record { total = 0; violations = 0; effectiveness = [] })) ∷ []
  tally r ((k, t) ∷ stats) =
      if category_position k == category_position r.attack_category
      then (k, add_to r t) ∷ stats
      else (k, t) ∷ tally r stats

  tally_all : List (Category × Tally F) → List (Round F) → List (Category × Tally F)
  unfolding tally
  tally_all stats [] = stats
  tally_all stats (r ∷ rs) = tally_all (tally r stats) rs

module _ {F : Type 0} ⦃fl : Float F⦄ where
  peak_from : F → List F → F
  peak_from best [] = best
  peak_from best (x ∷ xs) = peak_from (if fl.gt x best then x else best) xs

  -- `max(scores)`, and 0.0 without scores.
  peak : List F → F
  unfolding peak_from
  peak [] = fl.nought
  peak (x ∷ xs) = peak_from x xs

  average : List F → F
  average [] = fl.nought
  average (x ∷ xs) = fl.mean (x ∷ xs)

  -- The second loop: the scores of a category become their average.
  finished : List (Category × Tally F) → List (Category × CategoryStats F)
  unfolding average
  finished [] = []
  finished ((k, t) ∷ stats) =
      (
        k,
        record {
          total = t.total;
          violations = t.violations;
          avg_effectiveness = average t.effectiveness;
        },
      )
      ∷ finished stats

  -- The result without rounds: the other fields keep their defaults.
  empty_result : Clock → Campaign F → CampaignResult F
  empty_result now c = record {
    campaign_id = c.id;
    state = c.state;
    total_rounds = 0;
    total_attacks = 0;
    total_tokens = c.total_tokens;
    total_cost_usd = c.total_cost_usd;
    total_duration_ms = 0;
    final_effectiveness = fl.nought;
    peak_effectiveness = fl.nought;
    violation_count = 0;
    severe_violation_count = 0;
    rounds = [];
    budget_violation_reason = none;
    category_stats = [];
    completed_at = now 0;
  }

  full_result : Clock → Campaign F → CampaignResult F
  unfolding effectiveness_scores count_severe durations tally_all peak finished or_now
  full_result now c =
      let scores = effectiveness_scores c.rounds in
      record {
        campaign_id = c.id;
        state = c.state;
        total_rounds = length c.rounds;
        total_attacks = length c.rounds;
        total_tokens = c.total_tokens;
        total_cost_usd = c.total_cost_usd;
        total_duration_ms = durations c.rounds;
        final_effectiveness = last_or fl.nought scores;
        peak_effectiveness = peak scores;
        violation_count = count_violations c.rounds;
        severe_violation_count = count_severe c.rounds;
        rounds = c.rounds;
        budget_violation_reason =
            if same_state c.state budget_exhausted then check_budget_violation now c else none;
        category_stats = finished (tally_all [] c.rounds);
        completed_at = or_now c.completed_at (now 1);
      }

  report : Clock → Campaign F → List (Round F) → CampaignResult F
  unfolding empty_result full_result
  report now c [] = empty_result now c
  report now c (r ∷ rs) = full_result now c

  unfoldable pub build_result : Clock → Campaign F → CampaignResult F
  unfolding report
  build_result now c = report now c c.rounds

  -- The totals over all categories.
  unfoldable pub stats_total : List (Category × CategoryStats F) → ℕ
  stats_total [] = 0
  stats_total ((k, t) ∷ stats) = t.total + stats_total stats

  unfoldable pub stats_violations : List (Category × CategoryStats F) → ℕ
  stats_violations [] = 0
  stats_violations ((k, t) ∷ stats) = t.violations + stats_violations stats

  tally-total :
      (r : Round F) (stats : List (Category × Tally F))
      → (stats_total (finished (tally r stats)) ≡ stats_total (finished stats) + 1)
        × (stats_violations (finished (tally r stats))
            ≡ stats_violations (finished stats) + (if violated r.effectiveness then 1 else 0))
  unfolding stats_total stats_violations finished tally
  tally-total r [] = ground arith
  tally-total r ((k, t) ∷ stats) = ground (arith, tally-total r stats)

  tally_all-total :
      (stats : List (Category × Tally F)) (rs : List (Round F))
      → (stats_total (finished (tally_all stats rs)) ≡ stats_total (finished stats) + length rs)
        × (stats_violations (finished (tally_all stats rs))
            ≡ stats_violations (finished stats) + count_violations rs)
  unfolding tally_all count_violations
  tally_all-total stats [] = omega arith
  tally_all-total stats (r ∷ rs) =
      ground (arith, tally-total r stats, tally_all-total (tally r stats) rs)

  -- The categories account for every round and every violation of the report.
  pub build_result_accounts :
      (now : Clock) (c : Campaign F)
      → let r = build_result now c in
        (stats_total r.category_stats ≡ r.total_rounds)
        × (stats_violations r.category_stats ≡ r.violation_count)
        × (r.total_rounds ≡ length c.rounds)
        × (r.violation_count ≡ count_violations c.rounds)
  unfolding build_result stats_total stats_violations count_violations
  build_result_accounts now c = ground (arith, tally_all-total [] c.rounds)
