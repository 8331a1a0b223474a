-- ===== src/Evaluation/Orchestration/Executor.antt =====
-- backend/app/evaluation/orchestration/executor.py, `EvaluationPipelineExecutor`, and the pipeline that
-- `EvaluationOrchestrator._build_pipeline` makes for it.
use redops.Base.{
  ℕ, ◌+◌, String, Bool, true, false, Option, none, some, List, [], ◌∷◌, ◌++◌, Result, ok, raised,
}
use redops.Evaluation.Orchestration.{
  StageType, planning, preparation, provider_invocation, metric_dispatch, aggregation, persistence,
  completion, ExecutionOutcome, success, failure, cancelled, ExecutionPlan, steps_for_stage,
  StageResult, ExecutionResult,
}
use redops.Evaluation.Orchestration.Stages.{Environment, Shared, provider_stage}
use redops.Evaluation.Orchestration.Scoring.{metric_stage, aggregation_stage, persistence_stage}

-- The stages that are implemented.
pub data Stage : Type 0 where
  provider_invocation_stage metric_dispatch_stage aggregating_stage persisting_stage : Stage

unfoldable pub stage_type : Stage → StageType
stage_type provider_invocation_stage = provider_invocation
stage_type metric_dispatch_stage = metric_dispatch
stage_type aggregating_stage = aggregation
stage_type persisting_stage = persistence

-- `stage_map`
abbrev stage_for : StageType → Option Stage
stage_for planning = none
stage_for preparation = none
stage_for provider_invocation = some provider_invocation_stage
stage_for metric_dispatch = some metric_dispatch_stage
stage_for aggregation = some aggregating_stage
stage_for persistence = some persisting_stage
stage_for completion = none

-- `_build_pipeline`, which raises where a stage has no implementation.
unfoldable pub build_pipeline : List StageType → Result StageType (List Stage)
build_pipeline [] = ok []
build_pipeline (t ∷ ts) = elim (stage_for t) [
  | none ↦ raised t
  | some s ↦ elim (build_pipeline ts) [ ok ss ↦ ok (s ∷ ss) | raised u ↦ raised u ]
]

-- The local variables of `execute`.
pub record Sums : Type 0 where
  pub stage_results : List StageResult
  pub items_succeeded : ℕ
  pub items_failed : ℕ
  pub outcome : ExecutionOutcome
  pub error_msg : Option String

abbrev pub no_sums : Sums
no_sums = record {
  stage_results = [];
  items_succeeded = 0;
  items_failed = 0;
  outcome = success;
  error_msg = none;
}

-- The stage returns, or raises.
unfoldable pub count_stage : StageResult → Sums → Sums
count_stage r u = record u {
  stage_results = u.stage_results ++ (r ∷ []);
  items_succeeded = u.items_succeeded + r.items_succeeded;
  items_failed = u.items_failed + r.items_failed;
}

unfoldable pub count_break : StageType → String → Sums → Sums
count_break t text u = record u {
  error_msg = some text;
  outcome = failure;
  stage_results =
      u.stage_results
      ++ (record {
        stage_type = t;
        outcome = failure;
        step_results = [];
        error = some text;
        items_processed = 1;
        items_succeeded = 0;
        items_failed = 1;
      }
          ∷ []);
}

module _ {S A : Type 0} where
  -- `shared_state: dict[str, Any] = {}`; a missing key is read as an empty `dict`.
  abbrev pub nothing_shared : Shared S A
  nothing_shared = record {
    provider_responses = [];
    item_executions = [];
    metric_results = [];
    aggregations = [];
  }

module _ {S A : Type 0} (env : Environment S A) (metric_names : List String) (is_cancelled : Bool)
    (plan : ExecutionPlan) where
  -- `stage.execute(context, steps, shared_state=shared_state)`
  unfoldable pub run_stage : Stage → Shared S A → Result String (StageResult × Shared S A)
  unfolding provider_stage metric_stage aggregation_stage persistence_stage steps_for_stage
  run_stage provider_invocation_stage sh =
      ok (provider_stage env is_cancelled (steps_for_stage provider_invocation plan) sh)
  run_stage metric_dispatch_stage sh =
      ok (metric_stage env metric_names is_cancelled (steps_for_stage metric_dispatch plan) sh)
  run_stage aggregating_stage sh = aggregation_stage env sh
  run_stage persisting_stage sh = ok (persistence_stage env sh)

  -- The `for` loop over the stages.
  unfoldable pub run_stages : List Stage → Sums × Shared S A → Sums × Shared S A
  unfolding run_stage count_stage count_break stage_type
  run_stages [] (u, sh) = (u, sh)
  run_stages (s ∷ ss) (u, sh) = elim is_cancelled [
    | true ↦ (record u { outcome = cancelled }, sh)
    | false ↦ elim (run_stage s sh) [
      | ok (r, next) ↦ run_stages ss (count_stage r u, next)
      | raised text ↦ (count_break (stage_type s) text u, sh)
    ]
  ]

  unfoldable pub result_of : Sums → ExecutionResult
  result_of u = record {
    run_id = plan.run_id;
    outcome = u.outcome;
    stage_results = u.stage_results;
    total_items = plan.total_items;
    items_processed = u.items_succeeded + u.items_failed;
    items_succeeded = u.items_succeeded;
    items_failed = u.items_failed;
    error = u.error_msg;
  }

  -- `execute`, with what the stages leave in `shared_state`.
  unfoldable pub execute : List Stage → ExecutionResult × Shared S A
  unfolding run_stages result_of
  execute stages =
      let (u, after) = run_stages stages (no_sums, nothing_shared) in (result_of u, after)
