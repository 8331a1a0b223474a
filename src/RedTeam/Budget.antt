-- ===== src/RedTeam/Budget.antt =====
-- backend/app/redteam/domain/campaign_enums.py, `AttackCategory` of domain/enums.py, and
-- `CampaignBudget` of domain/campaign.py: the states of a campaign and its limits.
use redops.Base.{
  ℕ, ◌+◌, ◌*◌, Bool, true, false, not, Option, none, some, leb, ◌==◌, if◌then◌else◌, Float,
}

-- campaign_enums.py
pub data CampaignState : Type 0 where
  created running paused completed failed budget_exhausted cancelled : CampaignState

abbrev pub campaign_position : CampaignState → ℕ
campaign_position created = 0
campaign_position running = 1
campaign_position paused = 2
campaign_position completed = 3
campaign_position failed = 4
campaign_position budget_exhausted = 5
campaign_position cancelled = 6

abbrev pub same_state : CampaignState → CampaignState → Bool
same_state a b = campaign_position a == campaign_position b

abbrev pub is_terminal : CampaignState → Bool
is_terminal completed = true
is_terminal failed = true
is_terminal budget_exhausted = true
is_terminal cancelled = true
is_terminal _ = false

abbrev pub is_active : CampaignState → Bool
is_active running = true
is_active paused = true
is_active _ = false

pub data MutationPhase : Type 0 where
  exploration exploitation adaptive : MutationPhase

-- `AttackCategory` of redteam/domain/enums.py
pub data Category : Type 0 where
  prompt_injection jailbreak system_prompt_extraction role_manipulation context_poisoning
        instruction_override tool_misuse sensitive_data_extraction policy_circumvention
        output_format_manipulation :
      Category

abbrev pub category_position : Category → ℕ
category_position prompt_injection = 0
category_position jailbreak = 1
category_position system_prompt_extraction = 2
category_position role_manipulation = 3
category_position context_poisoning = 4
category_position instruction_override = 5
category_position tool_misuse = 6
category_position sensitive_data_extraction = 7
category_position policy_circumvention = 8
category_position output_format_manipulation = 9

-- `CampaignBudget`
pub record Budget (F : Type 0) : Type 0 where
  pub max_rounds : ℕ
  pub max_attacks : ℕ
  pub max_total_tokens : ℕ
  pub max_cost_usd : F
  pub max_duration_seconds : ℕ
  pub effectiveness_threshold : F

-- The names that `check_violation` returns.
pub data Limit : Type 0 where
  rounds_limit attacks_limit tokens_limit cost_limit duration_limit : Limit

-- What the budget is asked about. The elapsed time is the difference of two readings of the clock,
-- or 0.0 without them.
pub record Usage (F : Type 0) : Type 0 where
  pub current_round : ℕ
  pub total_attacks : ℕ
  pub total_tokens : ℕ
  pub total_cost : F
  pub elapsed : Option (ℕ × ℕ)

-- `elapsed_seconds >= seconds`
lasts : Option (ℕ × ℕ) → ℕ → Bool
lasts none seconds = leb seconds 0
lasts (some (begun, end)) seconds = leb (begun + seconds * 1_000_000) end

module _ {F : Type 0} ⦃fl : Float F⦄ where
  -- `CampaignBudget.is_within_limits`
  unfoldable pub is_within_limits : Budget F → Usage F → Bool
  unfolding lasts
  is_within_limits b u =
      if leb b.max_rounds u.current_round
      then false
      else if leb b.max_attacks u.total_attacks
      then false
      else if leb b.max_total_tokens u.total_tokens
      then false
      else if fl.ge u.total_cost b.max_cost_usd
      then false
      else not (lasts u.elapsed b.max_duration_seconds)

  -- `CampaignBudget.check_violation`
  unfoldable pub check_violation : Budget F → Usage F → Option Limit
  unfolding lasts
  check_violation b u =
      if leb b.max_rounds u.current_round
      then some rounds_limit
      else if leb b.max_attacks u.total_attacks
      then some attacks_limit
      else if leb b.max_total_tokens u.total_tokens
      then some tokens_limit
      else if fl.ge u.total_cost b.max_cost_usd
      then some cost_limit
      else if lasts u.elapsed b.max_duration_seconds
      then some duration_limit
      else none
