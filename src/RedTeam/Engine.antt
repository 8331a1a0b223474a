-- ===== src/RedTeam/Engine.antt =====
-- backend/app/redteam/engine/campaign_engine.py, `AdaptiveCampaignEngine`: the campaign loop. What
-- the providers, the judge, the store and the `cancelled` callback do is an environment, which
-- answers by the number of the round.
pub mod Loop
pub mod Ending
pub mod Resume
use mathlib.Core.List.{reverse}
use redops.Base.{
  ℕ, zero, suc, ◌+◌, ◌%◌, String, Bool, true, false, Option, none, some, List, [], ◌∷◌, leb, ltb,
  ◌==◌, if◌then◌else◌, is_some, length, get_elem?, Float, Clock, Result, ok, raised,
}
use redops.RedTeam.Campaign.{
  CampaignState, running, completed, cancelled, failed, same_state, is_active, Category,
  prompt_injection, Execution, Effectiveness, Lineage, Round, Campaign, CampaignError, start,
  complete, fail, exhaust_budget, cancel, set_mutation_phase, can_continue, record_round,
  current_round,
}
use redops.RedTeam.Campaign.Report.{CampaignResult, build_result}
use redops.RedTeam.Selector.{recommend_phase_transition}

-- What a call outside the engine does: it answers, or raises with a message.
pub data Answer (A : Type 0) : Type 0 where
  answers : A → Answer A
  breaks : String → Answer A

-- A durable checkpoint: saved, a `_RoundPersistenceError`, or another exception.
pub data Save : Type 0 where
  saved unsaved : Save
  save_breaks : String → Save

pub record Environment (F : Type 0) : Type 0 where
  -- the answer of `cancelled()` at the poll with the given index in a round, and after the loop
  pub polls : ℕ → ℕ → Bool
  pub poll_at_end : Bool
  -- the categories of the selected attack definitions
  pub definitions : List Category
  pub strategy : ℕ → String
  pub scenario : ℕ → Answer (Unit {0})
  pub mutation : ℕ → Answer (Unit {0})
  pub lineage_id : ℕ → ℕ
  pub target : ℕ → Answer (Execution F)
  pub judge : ℕ → Answer (Effectiveness F)
  pub save : ℕ → Save
  -- the clocks of `start`, of `can_continue` before a round and after the loop, of the call that ends the
  -- campaign, and of `build_result`
  pub start_clock : Clock
  pub round_clock : ℕ → Clock
  pub close_clock : Clock
  pub end_clock : Clock
  pub report_clock : Clock

pub data RoundOutcome (F : Type 0) : Type 0 where
  finished : Round F → RoundOutcome F
  stopped : RoundOutcome F
  not_saved : RoundOutcome F
  broke : String → RoundOutcome F

or_injection : Option Category → Category
or_injection none = prompt_injection
or_injection (some c) = c

rotate : ℕ → List Category → Category
unfolding or_injection
rotate n [] = prompt_injection
rotate n (c ∷ cs) = or_injection (get_elem? (c ∷ cs) (n % length (c ∷ cs)))

-- `_select_category`: by the definitions, if there are any, and by the campaign's categories else.
unfoldable pub select_category : ℕ → List Category → List Category → Category
unfolding rotate
select_category n [] categories = rotate n categories
select_category n (d ∷ ds) categories = rotate n (d ∷ ds)

module _ {F : Type 0} where
  last_lineage : List (Round F) → Option ℕ
  last_lineage [] = none
  last_lineage (r ∷ []) = some r.lineage.lineage_id
  last_lineage (r ∷ s ∷ rs) = last_lineage (s ∷ rs)

  -- The `CampaignRound` that `_execute_round` builds.
  round_of : Environment F → Campaign F → Execution F → Effectiveness F → Round F
  unfolding last_lineage select_category
  round_of env c e eff =
      let n = current_round c in
      let category = select_category n env.definitions c.attack_categories in
      record {
        round_number = n + 1;
        attack_category = category;
        mutation_strategy = env.strategy n;
        mutation_phase = c.mutation_phase;
        lineage = record {
          lineage_id = env.lineage_id n;
          parent_lineage_id = last_lineage c.rounds;
          generation = n;
          mutation_strategy = env.strategy n;
          attack_category = category;
          is_seed = n == 0;
        };
        execution = some e;
        effectiveness = some eff;
        tokens_used = e.total_tokens;
        cost_usd = e.cost_usd;
        duration_ms = e.latency_ms;
      }

  -- The checkpoint of a round whose execution had no error.
  checkpointed : Save → Round F → RoundOutcome F
  checkpointed saved r = finished r
  checkpointed unsaved r = not_saved
  checkpointed (save_breaks m) r = broke m

  after_judge : Environment F → Campaign F → Execution F → Answer (Effectiveness F) → RoundOutcome F
  unfolding round_of checkpointed
  after_judge env c e (breaks m) = broke m
  after_judge env c e (answers eff) =
      let r = round_of env c e eff in
      if is_some e.error then finished r else checkpointed (env.save (current_round c)) r

  after_target : Environment F → Campaign F → Answer (Execution F) → RoundOutcome F
  unfolding after_judge
  after_target env c (breaks m) = broke m
  after_target env c (answers e) =
      if env.polls (current_round c) 3
      then stopped
      else after_judge env c e (env.judge (current_round c))

  attack : Environment F → Campaign F → RoundOutcome F
  unfolding after_target
  attack env c =
      if env.polls (current_round c) 2
      then stopped
      else after_target env c (env.target (current_round c))

  mutate : Environment F → Campaign F → Answer (Unit {0}) → RoundOutcome F
  unfolding attack
  mutate env c (breaks m) = broke m
  mutate env c (answers _) = attack env c

  prepare : Environment F → Campaign F → Answer (Unit {0}) → RoundOutcome F
  unfolding mutate attack
  prepare env c (breaks m) = broke m
  prepare env c (answers _) =
      if ltb 0 (current_round c)
      then (if env.polls (current_round c) 1
          then stopped
          else mutate env c (env.mutation (current_round c)))
      else attack env c

  -- `_execute_round`
  unfoldable pub execute_round : Environment F → Campaign F → RoundOutcome F
  unfolding prepare
  execute_round env c =
      if env.polls (current_round c) 0
      then stopped
      else prepare env c (env.scenario (current_round c))

  has_error : Option (Execution F) → Bool
  has_error none = false
  has_error (some e) = is_some e.error

  leading_errors : List (Round F) → ℕ
  unfolding has_error
  leading_errors [] = 0
  leading_errors (r ∷ rs) =
      let rest = leading_errors rs in if has_error r.execution then suc rest else 0

  -- `_count_consecutive_errors`
  count_consecutive_errors : Campaign F → ℕ
  unfolding leading_errors
  count_consecutive_errors c = leading_errors (reverse c.rounds)

module _ {F : Type 0} ⦃fl : Float F⦄ where
  stops : Campaign F → Round F → Option (Effectiveness F) → Bool
  unfolding count_consecutive_errors has_error
  stops c r none = false
  stops c r (some eff) =
      if fl.ge eff.effectiveness_score c.budget.effectiveness_threshold
      then true
      else if has_error r.execution
      then leb 3 (count_consecutive_errors c)
      else false

  -- `_should_stop_early`
  unfoldable pub should_stop_early : Campaign F → Round F → Bool
  unfolding stops
  should_stop_early c r = stops c r r.effectiveness

  -- The recommendation of the selector, applied.
  unfoldable pub advise : Campaign F → Campaign F
  advise c = elim (recommend_phase_transition c.rounds c.mutation_phase) [
    | none ↦ c
    | some p ↦ set_mutation_phase p c
  ]
