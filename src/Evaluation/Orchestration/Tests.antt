-- ===== src/Evaluation/Orchestration/Tests.antt =====
-- The theorems on backend/app/evaluation/orchestration, applied to a dataset of two questions.
use redops.Base.{
  ℕ, ◌+◌, String, true, false, none, some, List, [], ◌∷◌, count_if, ◌≡◌, refl, ◌==◌, ok, is_ok,
  whole, if◌then◌else◌, str,
}
use redops.Ai.{queued, paused, Priority}
use redops.Evaluation.Run.{EvaluationRun, RunCheckpoint, new_run}
use redops.Evaluation.Orchestration.{ExecutionPlan}
use redops.Evaluation.Orchestration.Planner.{
  Config, DatasetItem, EvaluationType, Store, Loaded, items_of, plan, plan_of,
}
use redops.Evaluation.Orchestration.Stages.{Environment, answers, fails}
use redops.Evaluation.Orchestration.Executor.{
  Stage, provider_invocation_stage, metric_dispatch_stage, aggregating_stage, persisting_stage,
  build_pipeline, execute,
}
use redops.Evaluation.Orchestration.Orchestrator.{Services, execute_run, resume_run}
use redops.Evaluation.Orchestration.Chain.{IsPlan, plan-IsPlan}
use redops.Evaluation.Orchestration.Dispatch.{succeeds, Undispatched, execute-Undispatched}
use redops.Evaluation.Orchestration.Steps.{stored_as}
use redops.Evaluation.Orchestration.Outcome.{Ends, execute_run-Ends}
use redops.Evaluation.Orchestration.Resuming.{
  FailsFound, resume_run-FailsFound, execute_run_unloaded,
}

ten : str 10 ≡ "10"
unfolding str
ten = refl

abbrev config : Config
config = record {
  eval_type = EvaluationType.dataset;
  metrics = "exact_match" ∷ [];
  reference = some (record { dataset_id = "capitals"; row_count = 2 });
  max_retries_per_item = 3;
  timeout_per_item_seconds = none;
}

abbrev question : String → DatasetItem
question text = record { prompt = text; reference = none; context = none; id = none }

abbrev questions : List DatasetItem
questions = question "Capital of France?" ∷ question "Capital of Italy?" ∷ []

-- The provider answers the first question and not the second.
abbrev environment : Environment (Unit {0}) (Unit {0})
environment = record {
  invoke = λ s. if s.item_index == 0 then answers "Paris" [] else fails (some "timeout");
  judge_error = none;
  is_registered = λ name. true;
  evaluate_single = λ name i input. ok (record { metric_name = name; error = none; scores = tt });
  no_scores = tt;
  aggregate = λ name rs. ok tt;
  save_many = some (λ i rs. true);
}

abbrev services : Store → Services (Unit {0}) (Unit {0})
services store = record {
  environment = environment;
  store = store;
  fresh = λ i. 100 + i;
  save_error = λ i. none;
  describe = λ e. "refused";
  clock = λ i j. 1_000 + i + j;
}

abbrev loading : Services (Unit {0}) (Unit {0})
loading = services (some (λ id. items_of questions))

abbrev breaking : Services (Unit {0}) (Unit {0})
breaking = services (some (λ id. Loaded.breaks "no connection"))

abbrev new : EvaluationRun ℕ
new = new_run 0 900 (record {
  id = 1;
  evaluation_name = "capitals";
  priority = Priority.normal;
  provider_name = "openai";
  model_id = "small";
  max_duration_seconds = none;
})

abbrev the_plan : ExecutionPlan
the_plan = plan_of (λ i. 100 + i) config questions 1

returned : plan loading.store loading.fresh config 1 ≡ ok the_plan
unfolding plan
returned = refl

plan-IsPlan_example : IsPlan loading.store config the_plan
plan-IsPlan_example = plan-IsPlan loading.store loading.fresh config 1 the_plan returned

abbrev all_stages : List Stage
all_stages =
    provider_invocation_stage ∷ metric_dispatch_stage ∷ aggregating_stage ∷ persisting_stage ∷ []

execute-Undispatched_example :
    Undispatched environment the_plan (execute environment config.metrics false the_plan all_stages)
unfolding plan_of build_pipeline
execute-Undispatched_example =
    execute-Undispatched environment loading.store loading.fresh config 1 the_plan all_stages
      returned refl

-- One of two questions is answered, so that this run is left running.
execute_run-Ends_example :
    Ends
      (count_if (succeeds environment) the_plan.steps)
      2
      (execute_run ⦃fl = whole⦄ loading config (stored_as new))
unfolding new_run plan_of
execute_run-Ends_example =
    execute_run-Ends loading config (λ i. refl) (stored_as new) the_plan refl returned

abbrev checkpoint : RunCheckpoint
checkpoint = record {
  run_id = 1;
  checkpoint_number = 1;
  items_completed = 1;
  items_total = 2;
  last_item_index = 0;
}

abbrev halfway : EvaluationRun ℕ
halfway = record new {
  status = paused;
  items_total = 2;
  items_completed = 1;
  checkpoint = some checkpoint;
}

resume_run-FailsFound_example :
    FailsFound (resume_run ⦃fl = whole⦄ loading config (some checkpoint) (some halfway))
resume_run-FailsFound_example =
    resume_run-FailsFound loading config (λ i. refl) halfway checkpoint refl refl

execute_run_unloaded_example :
    let c = execute_run ⦃fl = whole⦄ breaking config (stored_as new) in
    (is_ok c ≡ false) × (c.self.run.status ≡ queued) × (c.self.stored.status ≡ queued)
unfolding plan new_run
execute_run_unloaded_example =
    execute_run_unloaded breaking config (λ i. refl) (stored_as new) "no connection" refl refl
