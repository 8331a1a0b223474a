-- ===== src/RedTeam/Round.antt =====
-- backend/app/redteam/domain/campaign.py: what a round of a campaign is made of.
use redops.Base.{ℕ, String, Bool, Option}
use redops.RedTeam.Budget.{MutationPhase, Category}

-- `TargetExecution`, `AttackEffectiveness` and `AttackLineage`: what the campaign and its engine read.
pub record Execution (F : Type 0) : Type 0 where
  pub total_tokens : ℕ
  pub cost_usd : F
  pub latency_ms : ℕ
  pub error : Option String

pub data Verdict : Type 0 where
  success failure inconclusive unjudged : Verdict

pub record Effectiveness (F : Type 0) : Type 0 where
  pub is_violation : Bool
  pub is_violation_severe : Bool
  pub effectiveness_score : F
  pub semantic_verdict : Verdict

pub record Lineage : Type 0 where
  pub lineage_id : ℕ
  pub parent_lineage_id : Option ℕ
  pub generation : ℕ
  pub mutation_strategy : String
  pub attack_category : Category
  pub is_seed : Bool

-- `CampaignRound`; the scenario's text is left out.
pub record Round (F : Type 0) : Type 0 where
  pub round_number : ℕ
  pub attack_category : Category
  pub mutation_strategy : String
  pub mutation_phase : MutationPhase
  pub lineage : Lineage
  pub execution : Option (Execution F)
  pub effectiveness : Option (Effectiveness F)
  pub tokens_used : ℕ
  pub cost_usd : F
  pub duration_ms : ℕ
