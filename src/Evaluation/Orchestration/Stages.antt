-- ===== src/Evaluation/Orchestration/Stages.antt =====
-- backend/app/evaluation/orchestration/executor.py: the four stages. A stage is a function from the state
-- that the stages share to its result, or to the text of what it raised.
use redops.Base.{
  ℕ, ◌+◌, ltb, ◌==◌, ◌&&◌, String, Bool, Option, none, some, List, [], ◌∷◌, ◌++◌, filter_by,
  contains, get, put, is_empty, if◌then◌else◌, Result,
}
use redops.Ai.{StepStatus}
use redops.Evaluation.Orchestration.{
  StageType, provider_invocation, ExecutionOutcome, success, failure, cancelled, ExecutionStep,
  StepResult, is_success, StageResult, Texts, value_or, put_at,
}

-- A result of a metric, with its scores in an abstract type.
pub record MetricResult (S : Type 0) : Type 0 where
  pub metric_name : String
  pub error : Option String
  pub scores : S

pub record MetricInput : Type 0 where
  pub prompt : String
  pub response : String
  pub reference : String
  pub context : String
  pub metadata : Texts

-- What the invocation of the provider for a step comes to: the response with the texts that
-- `_build_execution_metadata` makes of it, a result without success, or something raised.
pub data Invocation : Type 0 where
  answers : String → Texts → Invocation
  fails : Option String → Invocation
  breaks : String → Invocation

-- What the stages call, and what it answers: the provider by way of the runtime coordinator, the
-- metric engine, the providers of the judge and of the embedding, and the repository of the results.
pub record Environment (S A : Type 0) : Type 0 where
  pub invoke : ExecutionStep → Invocation
  pub judge_error : Option String
  pub is_registered : String → Bool
  pub evaluate_single : String → ℕ → MetricInput → Result String (MetricResult S)
  pub no_scores : S
  pub aggregate : String → List (MetricResult S) → Result String A
  pub save_many : Option (ℕ → List (MetricResult S) → Bool)

-- `shared_state`
pub record Shared (S A : Type 0) : Type 0 where
  pub provider_responses : List (ℕ × String)
  pub item_executions : List (ℕ × Texts)
  pub metric_results : List (ℕ × List (MetricResult S))
  pub aggregations : List (String × A)

pub record Tally : Type 0 where
  pub step_results : List StepResult
  pub succeeded : ℕ
  pub failed : ℕ

abbrev pub no_tally : Tally
no_tally = record { step_results = []; succeeded = 0; failed = 0 }

-- `_build_step_result`
unfoldable pub build_step_result :
    ExecutionStep
    → StageType
    → StepStatus
    → ExecutionOutcome
    → Option String
    → String
    → Texts
    → StepResult
build_step_result s t status outcome error response metadata = record {
  step_id = s.step_id;
  stage_type = t;
  status = status;
  outcome = outcome;
  error = error;
  metadata = if is_empty response then metadata else put "response" response metadata;
}

-- A step that a cancelled run passes over.
abbrev pub passed_over : StageType → ExecutionStep → Tally → Tally
passed_over t s y = record y {
  step_results =
      y.step_results ++ (build_step_result s t StepStatus.skipped cancelled none "" [] ∷ []);
}

-- `FAILURE if failed > 0 and succeeded == 0 else SUCCESS`
unfoldable pub outcome_of : Tally → ExecutionOutcome
outcome_of y = if ltb 0 y.failed && (y.succeeded == 0) then failure else success

unfoldable pub stage_result : StageType → Tally → StageResult
unfolding outcome_of
stage_result t y = record {
  stage_type = t;
  outcome = outcome_of y;
  step_results = y.step_results;
  error = none;
  items_processed = y.succeeded + y.failed;
  items_succeeded = y.succeeded;
  items_failed = y.failed;
}

-- `d.get(key, "")`
unfoldable pub text_at : String → Texts → String
text_at k m = value_or "" (get k m)

-- `_EXECUTION_METADATA_KEYS`
abbrev execution_metadata_keys : List String
execution_metadata_keys =
    "model" ∷ "request_id" ∷ "tokens_input" ∷ "tokens_output" ∷ "tokens_cached" ∷ "cost_usd"
    ∷ "cost_estimated" ∷ "latency_ms" ∷ "finish_reason" ∷ []

unfoldable pub kept_metadata : Texts → Texts
kept_metadata m = filter_by (λ e. contains e.0 execution_metadata_keys) m

module _ {S A : Type 0} (env : Environment S A) (is_cancelled : Bool) where
  -- `_execute_step`
  unfoldable pub execute_step : ExecutionStep → StepResult
  unfolding build_step_result
  execute_step s = elim (env.invoke s) [
    | answers response metadata ↦
        build_step_result s provider_invocation StepStatus.completed success none response metadata
    | fails error ↦ build_step_result s provider_invocation StepStatus.failed failure error "" []
    | breaks text ↦
        build_step_result s provider_invocation StepStatus.failed failure (some text) "" []
  ]

  -- What the loop of `ProviderInvocationStage.execute` does with the result of a step.
  unfoldable pub note_step : ExecutionStep → StepResult → Tally × Shared S A → Tally × Shared S A
  unfolding text_at kept_metadata
  note_step s r (y, sh) =
      let noted = record y { step_results = y.step_results ++ (r ∷ []) } in
      if is_success r
      then (
        record noted { succeeded = y.succeeded + 1 },
        record sh {
          provider_responses =
              put_at s.item_index (text_at "response" r.metadata) sh.provider_responses;
          item_executions = put_at s.item_index (kept_metadata r.metadata) sh.item_executions;
        },
      )
      else (record noted { failed = y.failed + 1 }, sh)

  unfoldable pub invoke_steps : List ExecutionStep → Tally × Shared S A → Tally × Shared S A
  unfolding execute_step note_step build_step_result
  invoke_steps [] (y, sh) = (y, sh)
  invoke_steps (s ∷ ss) (y, sh) = invoke_steps ss (
      if is_cancelled
      then (passed_over provider_invocation s y, sh)
      else note_step s (execute_step s) (y, sh))

  -- `ProviderInvocationStage.execute`
  unfoldable pub provider_stage : List ExecutionStep → Shared S A → StageResult × Shared S A
  unfolding invoke_steps stage_result
  provider_stage ss sh =
      let (y, after) =
        invoke_steps ss (no_tally, record sh { provider_responses = []; item_executions = [] }) in
      (stage_result provider_invocation y, after)
