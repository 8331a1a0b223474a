-- ===== src/RedTeam/Tests.antt =====
-- The theorems on backend/app/redteam, applied to a campaign whose costs are whole numbers.
use redops.Base.{
  ℕ, ◌+◌, ◌≡◌, refl, true, false, none, some, List, [], ◌∷◌, length, arith, Clock, max, whole,
}
use redops.RedTeam.Campaign.{
  created, running, completed, prompt_injection, jailbreak, exploration, exploitation, failure,
  Budget, Execution, Effectiveness, Round, Campaign, can_continue, record_round,
}
use redops.RedTeam.Campaign.Life
use redops.RedTeam.Campaign.Report.{
  build_result, stats_total, stats_violations, count_violations, build_result_accounts,
}
use redops.RedTeam.Engine.{Environment, Answer, Save, execute_round, should_stop_early}
use redops.RedTeam.Engine.Loop.{replay, loop, run_campaign}
use redops.RedTeam.Engine.Ending.{Concludes, run_campaign-Concludes}
use redops.RedTeam.Engine.Resume.{Produces, nothing, round, replay_resumes}

abbrev the_budget : Budget ℕ
the_budget = record {
  max_rounds = 3;
  max_attacks = 10;
  max_total_tokens = 1000;
  max_cost_usd = 50;
  max_duration_seconds = 3600;
  effectiveness_threshold = 9;
}

abbrev the_campaign : Campaign ℕ
the_campaign = record {
  id = 4;
  name = "probe";
  target_provider = "openai";
  target_model = "small";
  attack_categories = prompt_injection ∷ jailbreak ∷ [];
  budget = the_budget;
  mutation_phase = exploration;
  state = created;
  rounds = [];
  total_tokens = 0;
  total_cost_usd = 0;
  started_at = none;
  completed_at = none;
  version = 1;
  events = [];
}

abbrev at : ℕ → Clock
at t i = t + i

abbrev started_campaign : Campaign ℕ
started_campaign = record the_campaign { state = running; started_at = some 100; version = 2 }

abbrev ended_campaign : Campaign ℕ
ended_campaign = record started_campaign { state = completed; completed_at = some 900 }

abbrev answer : Execution ℕ
answer = record { total_tokens = 20; cost_usd = 1; latency_ms = 700; error = none }

abbrev scored : ℕ → Effectiveness ℕ
scored s = record {
  is_violation = true;
  is_violation_severe = false;
  effectiveness_score = s;
  semantic_verdict = failure;
}

-- Every call succeeds, and every answer of the target gets the same score.
abbrev scoring : ℕ → Environment ℕ
scoring s = record {
  polls = λ n i. false;
  poll_at_end = false;
  definitions = [];
  strategy = λ n. "none";
  scenario = λ n. Answer.answers tt;
  mutation = λ n. Answer.answers tt;
  lineage_id = λ n. n;
  target = λ n. Answer.answers answer;
  judge = λ n. Answer.answers (scored s);
  save = λ n. Save.saved;
  start_clock = at 100;
  round_clock = λ n. at 200;
  close_clock = at 300;
  end_clock = at 400;
  report_clock = at 500;
}

-- The first round of such a campaign.
abbrev first_round : ℕ → Round ℕ
first_round s = record {
  round_number = 1;
  attack_category = prompt_injection;
  mutation_strategy = "none";
  mutation_phase = exploration;
  lineage = record {
    lineage_id = 0;
    parent_lineage_id = none;
    generation = 0;
    mutation_strategy = "none";
    attack_category = prompt_injection;
    is_seed = true;
  };
  execution = some answer;
  effectiveness = some (scored s);
  tokens_used = 20;
  cost_usd = 1;
  duration_ms = 700;
}

run_campaign-Concludes_example :
    Concludes
      (max (length the_campaign.rounds + length (first_round 2 ∷ [])) the_budget.max_rounds)
      (run_campaign 4 (scoring 2) (first_round 2 ∷ []) none the_campaign)
run_campaign-Concludes_example =
    run_campaign-Concludes 4 (scoring 2) (first_round 2 ∷ []) none the_campaign refl (omega arith)

one_round : Produces (scoring 2) started_campaign (first_round 2 ∷ [])
unfolding can_continue execute_round should_stop_early record_round
one_round = round refl refl refl nothing

replay_resumes_example :
    loop (length (first_round 2 ∷ []) + 2) (scoring 2) started_campaign
    ≡ loop 2 (scoring 2) (replay (first_round 2 ∷ []) started_campaign)
replay_resumes_example =
    replay_resumes (scoring 2) started_campaign (first_round 2 ∷ []) 2 one_round

abbrev campaign_requests : List (Life.Request ℕ × Clock)
campaign_requests =
    (Life.to_start, at 100)
    ∷ (Life.to_record (first_round 2), at 200)
    ∷ (Life.to_phase exploitation, at 300)
    ∷ (Life.to_exhaust, at 400)
    ∷ (Life.to_cancel, at 500)
    ∷ []

the_campaign-IsBalanced : Life.IsBalanced the_campaign
unfolding Life.tokens_of Life.cost_of
the_campaign-IsBalanced = ground arith

serve_all-IsBalanced_example : Life.IsBalanced (Life.serve_all campaign_requests the_campaign)
serve_all-IsBalanced_example =
    Life.serve_all-IsBalanced campaign_requests the_campaign the_campaign-IsBalanced

build_result_accounts_example :
    let r =
      build_result
        (at 900)
        (record ended_campaign { rounds = first_round 2 ∷ first_round 9 ∷ [] }) in
    (stats_total r.category_stats ≡ r.total_rounds)
    × (stats_violations r.category_stats ≡ r.violation_count)
    × (r.total_rounds ≡ 2)
    × (r.violation_count ≡ count_violations (first_round 2 ∷ first_round 9 ∷ []))
build_result_accounts_example =
    build_result_accounts (at 900)
      (record ended_campaign { rounds = first_round 2 ∷ first_round 9 ∷ [] })
