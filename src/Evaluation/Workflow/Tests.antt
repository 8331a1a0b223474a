-- ===== src/Evaluation/Workflow/Tests.antt =====
-- The theorems on backend/app/evaluation/temporal/workflow.py, applied to a run of three items.
use redops.Base.{ℕ, ◌==◌, Bool, true, false, none, some, [], ◌∷◌, ◌≡◌, refl, if◌then◌else◌, whole}
use redops.Evaluation.Workflow.{ItemResult, Environment, begin, run_item, run}
use redops.Evaluation.Workflow.Script.{IsScript, status_of, run-IsScript}
use redops.Evaluation.Workflow.Finishing.{Ended, run-Ended, run_item_repeats}

-- An item with one result of a metric.
abbrev item : Bool → ItemResult ℕ (Unit {0})
item failed = record {
  failed = failed;
  metrics = tt ∷ [];
  cost_usd = 2;
  cost_estimated = true;
  tokens_input = 10;
  tokens_output = 5;
}

-- The first item succeeds, the second one fails, and the activity of the third one raises.
abbrev calm : Environment ℕ (Unit {0})
calm = record {
  queues = true;
  starts = true;
  executes = λ i. if i == 2 then none else some (item (i == 1));
  persists = λ i. true;
  reports = λ i. true;
  reports_failure = λ i. true;
  is_cancel_requested = λ i. false;
  cancels = true;
  finalizes = true;
  fails = true;
  completes = true;
}

-- The report of the first item raises.
abbrev unreported : Environment ℕ (Unit {0})
unreported = record calm { reports = λ i. false }

run-IsScript_example : IsScript (run unreported 3).self.log (status_of (run unreported 3))
run-IsScript_example = run-IsScript unreported 3

run-Ended_example : Ended 3 3 2 (run calm 3)
run-Ended_example =
    run-Ended calm
      (record {
        queues = refl;
        starts = refl;
        persists = λ i. refl;
        reports = λ i. refl;
        reports_failure = λ i. refl;
        uncancelled = λ i. refl;
        finalizes = refl;
        fails = refl;
        completes = refl;
      })
      3

run_item_repeats_example :
    let v = (run_item unreported 0 (begin unreported)).self in
    (v.items_completed ≡ 2) × (v.items_failed ≡ 1)
run_item_repeats_example =
    run_item_repeats unreported 0 (item false) (begin unreported) refl refl refl
