-- ===== src/Evaluation/Tests.antt =====
-- The theorems on backend/app/evaluation, applied to concrete runs and items.
use redops.Base.{
  ℕ, ◌+◌, ◌≡◌, refl, ◌↔◌, true, false, none, some, List, [], ◌∷◌, arith, Clock, whole, ltb, ◌-◌,
  pos,
}
use redops.Ai.{running, completed, CancellationReason, Priority}
use redops.Evaluation.StateMachine.{TransitionContext, transition}
use redops.Evaluation.StateMachine.Document.{Permits, transition_iff_Permits}
use redops.Evaluation.Item.{ItemStatus, ItemResult, EvaluationItem}
use redops.Evaluation.Item.Life
use redops.Evaluation.Run.{EvaluationRun, Setup, new_run}
use redops.Evaluation.Run.Lifecycle
use redops.Evaluation.Run.Progress.{
  ProgressCommand, Excess, Totals, SameLife, update_progress, update_progress-Totals,
}

-- Three of five items are done, without a checkpoint.
abbrev three_of_five : TransitionContext
three_of_five = record {
  items_completed = 3;
  items_total = 5;
  has_checkpoint = false;
  force = false;
}

transition_iff_Permits_example :
    ((transition running completed three_of_five).success ≡ true)
    ↔ Permits three_of_five running completed
transition_iff_Permits_example = transition_iff_Permits running completed three_of_five

-- An item, without scores and costs.
abbrev the_item : EvaluationItem (Unit {0})
the_item = record { id = 7; index = 0; status = ItemStatus.pending; result = none; updated_at = 10 }

abbrev the_result : ItemResult (Unit {0})
the_result = record {
  item_id = 7;
  item_index = 0;
  response = "Paris";
  scores_and_cost = tt;
  tokens_input = 12;
  tokens_output = 3;
  latency_ms = 800;
  status = ItemStatus.completed;
  error = none;
  failure_reason = none;
}

abbrev noon : Clock
noon i = 43_200_000_000 + i

abbrev item_requests : List (Life.Request (Unit {0}) × Clock)
item_requests =
    (Life.to_start, noon)
    ∷ (Life.to_complete the_result, noon)
    ∷ (Life.to_cancel, noon)
    ∷ (Life.to_fail tt "late" none, noon)
    ∷ []

the_item-IsConsistent : Life.IsConsistent the_item
the_item-IsConsistent = record { fresh = λ h. refl; done = λ h. cc; broken = λ h. cc }

serve_all-IsConsistent_example : Life.IsConsistent (Life.serve_all item_requests the_item)
serve_all-IsConsistent_example =
    Life.serve_all-IsConsistent item_requests the_item the_item-IsConsistent

-- A run, with whole numbers for its costs.
abbrev the_setup : Setup
the_setup = record {
  id = 1;
  evaluation_name = "capitals";
  priority = Priority.normal;
  provider_name = "openai";
  model_id = "small";
  max_duration_seconds = none;
}

abbrev the_run : EvaluationRun ℕ
the_run = record {
  setup = the_setup;
  status = running;
  items_total = 5;
  items_completed = 0;
  items_failed = 0;
  started_at = some 43_200_000_000;
  completed_at = none;
  cancelled_at = none;
  token_input = 0;
  token_output = 0;
  cost = 0;
  average_latency_ms = 0;
  checkpoint = none;
  failure_summary = none;
  cancellation_reason = none;
  version = 4;
  updated_at = 43_200_000_000;
  events = [];
}

abbrev ended_run : EvaluationRun ℕ
ended_run = record the_run { status = completed; completed_at = some 43_200_000_100 }

abbrev run_requests : List (Lifecycle.Request ℕ × Clock)
run_requests =
    (Lifecycle.to_queue, noon)
    ∷ (Lifecycle.to_start (pos 2), noon)
    ∷ (Lifecycle.item_success, noon)
    ∷ (Lifecycle.item_failure, noon)
    ∷ (Lifecycle.to_complete, noon)
    ∷ (Lifecycle.to_cancel CancellationReason.user_cancelled false, noon)
    ∷ []

serve_all-IsCoherent_example :
    Lifecycle.IsCoherent (Lifecycle.serve_all run_requests (new_run 0 0 the_setup))
serve_all-IsCoherent_example =
    Lifecycle.serve_all-IsCoherent run_requests (new_run 0 0 the_setup)
      (Lifecycle.new_run-IsCoherent 0 the_setup)

serve_all_terminal_example : (Lifecycle.serve_all run_requests ended_run).status ≡ completed
serve_all_terminal_example = Lifecycle.serve_all_terminal run_requests ended_run refl

abbrev whole_excess : Excess ℕ
whole_excess = record { excess = λ a b. a - b; nonzero = λ a. ltb 0 a }

abbrev report : ProgressCommand ℕ
report = record {
  items_completed = 3;
  items_failed = 1;
  token_input = 100;
  token_output = 40;
  cost_usd = 2;
  latency_ms = 600;
}

update_progress-Totals_example :
    Totals 3 1 100 40 (update_progress whole_excess report noon the_run)
    × SameLife the_run (update_progress whole_excess report noon the_run)
update_progress-Totals_example =
    update_progress-Totals whole_excess report noon the_run (omega arith)
