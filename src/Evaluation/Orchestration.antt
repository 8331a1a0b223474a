-- ===== src/Evaluation/Orchestration.antt =====
-- backend/app/evaluation/execution and evaluation/orchestration: the data of a pipeline, as the planner
-- makes it, the executor runs it and the orchestrator acts on it. Names of steps and stages, and times,
-- are left out.
pub mod Planner
pub mod Stages
pub mod Scoring
pub mod Executor
pub mod Orchestrator
pub mod Chain
pub mod Idle
pub mod Dispatch
pub mod Steps
pub mod Outcome
pub mod Resuming
mod Tests
use redops.Base.{
  ℕ, ◌==◌, String, Bool, true, false, Option, none, some, List, [], ◌∷◌, filter_by, if◌then◌else◌,
}
use redops.Ai.{StepStatus}

-- execution/stages/types.py
pub data StageType : Type 0 where
  planning preparation provider_invocation metric_dispatch aggregation persistence completion :
      StageType

-- `_STAGE_ORDER`, which gives each member another number.
abbrev pub order : StageType → ℕ
order planning = 0
order preparation = 1
order provider_invocation = 2
order metric_dispatch = 3
order aggregation = 4
order persistence = 5
order completion = 6

abbrev pub same_stage : StageType → StageType → Bool
same_stage a b = order a == order b

pub data ExecutionOutcome : Type 0 where
  success failure skipped cancelled timeout : ExecutionOutcome

-- `dict[str, str]`
abbrev pub Texts : Type 0
Texts = List (String × String)

-- execution/pipeline/step.py. The planner makes hard dependencies only.
pub record ExecutionStep : Type 0 where
  pub step_id : ℕ
  pub stage_type : StageType
  pub item_index : ℕ
  pub dependencies : List ℕ
  pub max_retries : ℕ
  pub timeout_seconds : ℕ
  pub position : ℕ
  pub metadata : Texts

-- execution/pipeline/plan.py
pub record ExecutionPlan : Type 0 where
  pub run_id : ℕ
  pub stages : List StageType
  pub steps : List ExecutionStep
  pub total_items : ℕ

unfoldable pub steps_for_stage : StageType → ExecutionPlan → List ExecutionStep
steps_for_stage t p = filter_by (λ s. same_stage s.stage_type t) p.steps

-- execution/results/results.py
pub record StepResult : Type 0 where
  pub step_id : ℕ
  pub stage_type : StageType
  pub status : StepStatus
  pub outcome : ExecutionOutcome
  pub error : Option String
  pub metadata : Texts

-- `StepResult.is_success`
abbrev pub is_success : StepResult → Bool
is_success r = elim r.outcome [ success ↦ true | _ ↦ false ]

pub record StageResult : Type 0 where
  pub stage_type : StageType
  pub outcome : ExecutionOutcome
  pub step_results : List StepResult
  pub error : Option String
  pub items_processed : ℕ
  pub items_succeeded : ℕ
  pub items_failed : ℕ

pub record ExecutionResult : Type 0 where
  pub run_id : ℕ
  pub outcome : ExecutionOutcome
  pub stage_results : List StageResult
  pub total_items : ℕ
  pub items_processed : ℕ
  pub items_succeeded : ℕ
  pub items_failed : ℕ
  pub error : Option String

-- A `dict` with item indices as keys, in the order of insertion.
module _ {V : Type 0} where
  abbrev pub get_at : ℕ → List (ℕ × V) → Option V
  get_at k [] = none
  get_at k ((j, v) ∷ m) = if j == k then some v else get_at k m

  -- `d.get(k, v)`
  abbrev pub value_or : V → Option V → V
  value_or v none = v
  value_or v (some w) = w

  abbrev pub put_at : ℕ → V → List (ℕ × V) → List (ℕ × V)
  put_at k v [] = (k, v) ∷ []
  put_at k v ((j, w) ∷ m) = if j == k then (j, v) ∷ m else (j, w) ∷ put_at k v m
