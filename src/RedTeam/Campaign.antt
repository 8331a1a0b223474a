-- ===== src/RedTeam/Campaign.antt =====
-- backend/app/redteam/domain/campaign.py, `AdaptiveCampaign`. Costs and scores are of an abstract
-- float type. `now i` is the reading of the clock with index `i` within a call, in microseconds.
pub mod Limits
pub mod Report
pub mod Life
use redops.Base.{
  ℕ, ◌+◌, String, Bool, true, false, not, ◌||◌, Option, none, some, List, [], ◌∷◌, ◌++◌,
  if◌then◌else◌, length, is_some, is_empty, strip, Float, Clock, Call, return, raise, Result, ok,
  raised,
}
pub use redops.RedTeam.Budget.{
  CampaignState, created, running, paused, completed, failed, budget_exhausted, cancelled,
  campaign_position, same_state, is_terminal, is_active, MutationPhase, exploration, exploitation,
  adaptive, Category, prompt_injection, jailbreak, system_prompt_extraction, role_manipulation,
  context_poisoning, instruction_override, tool_misuse, sensitive_data_extraction,
  policy_circumvention, output_format_manipulation, category_position, Budget, Limit, rounds_limit,
  attacks_limit, tokens_limit, cost_limit, duration_limit, Usage,
}
unfoldable pub use redops.RedTeam.Budget.{is_within_limits, check_violation}
pub use redops.RedTeam.Round.{
  Execution, Verdict, success, failure, inconclusive, unjudged, Effectiveness, Lineage, Round,
}

-- The events of redteam/domain/events.py that a campaign raises.
pub data Event : Type 0 where
  run_created : ℕ → ℕ → Event
  run_started : ℕ → ℕ → Event
  run_completed : ℕ → ℕ → ℕ → Event
  run_failed : ℕ → String → Event
  run_cancelled : ℕ → ℕ → Event

-- `ValidationError(field=…)`, `ConflictError` and `DomainError`, the last two with the state.
pub data CampaignError : Type 0 where
  validation_error : String → CampaignError
  conflict_error : CampaignState → CampaignError
  domain_error : CampaignState → CampaignError

-- `AdaptiveCampaign`. The target's settings and the texts that no method reads are left out.
pub record Campaign (F : Type 0) : Type 0 where
  pub id : ℕ
  pub name : String
  pub target_provider : String
  pub target_model : String
  pub attack_categories : List Category
  pub budget : Budget F
  pub mutation_phase : MutationPhase
  pub state : CampaignState
  pub rounds : List (Round F)
  pub total_tokens : ℕ
  pub total_cost_usd : F
  pub started_at : Option ℕ
  pub completed_at : Option ℕ
  pub version : ℕ
  pub events : List Event

abbrev pub CampaignCall : Type 0 → Type 0
CampaignCall F = Call (Campaign F) CampaignError (Unit {0})

-- `elapsed_seconds`: 0.0 before the start, and up to the end of the campaign or to now after it.
elapsed_of : Option ℕ → Option ℕ → ℕ → Option (ℕ × ℕ)
elapsed_of none ended now = none
elapsed_of (some begun) none now = some (begun, now)
elapsed_of (some begun) (some end) now = some (begun, end)

or_default : List Category → List Category
or_default [] = prompt_injection ∷ jailbreak ∷ []
or_default (c ∷ cs) = c ∷ cs

module _ {F : Type 0} where
  abbrev emit : Event → Campaign F → Campaign F
  emit e c = record c { events = c.events ++ (e ∷ []) }

  -- `current_round_number`
  abbrev pub current_round : Campaign F → ℕ
  current_round c = length c.rounds

  unfoldable pub start : Clock → Campaign F → CampaignCall F
  start now c =
      if not (same_state c.state created)
      then raise c (conflict_error c.state)
      else return
          (emit (run_started c.id c.budget.max_attacks)
            (record c { state = running; started_at = some (now 0); version = c.version + 1 }))
          tt

  -- The common tail of the methods that end a campaign.
  abbrev ended : CampaignState → ℕ → Event → Campaign F → CampaignCall F
  ended s now e c =
      return (emit e (record c { state = s; completed_at = some now; version = c.version + 1 })) tt

  unfoldable pub complete : Clock → Campaign F → CampaignCall F
  complete now c =
      if not (is_active c.state)
      then raise c (conflict_error c.state)
      else ended completed (now 0) (run_completed c.id c.budget.max_attacks (current_round c)) c

  unfoldable pub fail : String → Clock → Campaign F → CampaignCall F
  fail reason now c =
      if is_terminal c.state
      then raise c (conflict_error c.state)
      else ended failed (now 0) (run_failed c.id reason) c

  unfoldable pub exhaust_budget : Clock → Campaign F → CampaignCall F
  exhaust_budget now c =
      if is_terminal c.state
      then raise c (conflict_error c.state)
      else ended budget_exhausted (now 0)
          (run_completed c.id c.budget.max_attacks (current_round c)) c

  unfoldable pub cancel : Clock → Campaign F → CampaignCall F
  cancel now c =
      if is_terminal c.state
      then raise c (conflict_error c.state)
      else ended cancelled (now 0) (run_cancelled c.id (current_round c)) c

  unfoldable pub set_mutation_phase : MutationPhase → Campaign F → Campaign F
  set_mutation_phase p c = record c { mutation_phase = p; version = c.version + 1 }

  -- The arguments that `can_continue` and `check_budget_violation` pass; the clock is read only for
  -- a campaign that has started and has not ended.
  usage : Clock → Campaign F → Usage F
  usage now c = record {
    current_round = current_round c;
    total_attacks = current_round c;
    total_tokens = c.total_tokens;
    total_cost = c.total_cost_usd;
    elapsed = elapsed_of c.started_at c.completed_at (now 0);
  }

module _ {F : Type 0} ⦃fl : Float F⦄ where
  unfoldable pub can_continue : Clock → Campaign F → Bool
  unfolding is_within_limits usage elapsed_of
  can_continue now c = is_within_limits c.budget (usage now c)

  unfoldable pub check_budget_violation : Clock → Campaign F → Option Limit
  unfolding check_violation usage elapsed_of
  check_budget_violation now c = check_violation c.budget (usage now c)

  unfoldable pub record_round : Round F → Campaign F → CampaignCall F
  record_round r c =
      if not (same_state c.state running)
      then raise c (domain_error c.state)
      else return
          (record c {
            rounds = c.rounds ++ (r ∷ []);
            total_tokens = c.total_tokens + r.tokens_used;
            total_cost_usd = fl.add c.total_cost_usd r.cost_usd;
            version = c.version + 1;
          })
          tt

  -- `create`, for a campaign with the given id and budget.
  unfoldable pub create :
      ℕ → String → String → String → List Category → Budget F → Result CampaignError (Campaign F)
  unfolding or_default
  create id name provider model categories budget =
      if is_empty name || is_empty (strip name)
      then raised (validation_error "name")
      else if is_empty provider
      then raised (validation_error "target_provider")
      else if is_empty model
      then raised (validation_error "target_model")
      else ok (record {
        id = id;
        name = strip name;
        target_provider = provider;
        target_model = model;
        attack_categories = or_default categories;
        budget = budget;
        mutation_phase = exploration;
        state = created;
        rounds = [];
        total_tokens = 0;
        total_cost_usd = fl.nought;
        started_at = none;
        completed_at = none;
        version = 1;
        events = run_created id 0 ∷ [];
      })
