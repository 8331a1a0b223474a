-- ===== src/Evaluation/Orchestration/Planner.antt =====
-- backend/app/evaluation/orchestration/planner.py, `EvaluationPlanner`.
use redops.Base.{
  ℕ, zero, suc, ◌==◌, ltb, String, Option, none, some, List, [], ◌∷◌, ◌++◌, length, get_elem?,
  if◌then◌else◌, Result, ok, raised,
}
use redops.Evaluation.Orchestration.{
  StageType, provider_invocation, metric_dispatch, aggregation, persistence, ExecutionStep,
  ExecutionPlan, Texts,
}

pub data EvaluationType : Type 0 where
  single dataset regression safety rag comparison : EvaluationType

pub record DatasetReference : Type 0 where
  pub dataset_id : String
  pub row_count : ℕ

-- What the planner reads of `run.config` and `run.config.policy`.
pub record Config : Type 0 where
  pub eval_type : EvaluationType
  pub metrics : List String
  pub reference : Option DatasetReference
  pub max_retries_per_item : ℕ
  pub timeout_per_item_seconds : Option ℕ

pub record DatasetItem : Type 0 where
  pub prompt : String
  pub reference : Option String
  pub context : Option String
  pub id : Option String

-- What `load` of a dataset store does: it returns the items, or raises a `KeyError` or something else.
pub data Loaded : Type 0 where
  items_of : List DatasetItem → Loaded
  key_error : Loaded
  breaks : String → Loaded

-- Where there is a store, its `load`.
abbrev pub Store : Type 0
Store = Option (String → Loaded)

unfoldable pub read : Loaded → Result String (List DatasetItem)
read (items_of items) = ok items
read key_error = ok []
read (breaks text) = raised text

unfoldable pub resolve_dataset_items : Store → Config → Result String (List DatasetItem)
unfolding read
resolve_dataset_items none c = ok []
resolve_dataset_items (some load) c = elim c.reference [
  | none ↦ ok []
  | some d ↦ read (load d.dataset_id)
]

unfoldable pub resolve_row_count : Config → List DatasetItem → ℕ
resolve_row_count c (i ∷ items) = length (i ∷ items)
resolve_row_count c [] = elim c.reference [ none ↦ 1 | some d ↦ d.row_count ]

unfoldable pub determine_stages : Config → List StageType
determine_stages c = elim c.eval_type [
  | single ↦ provider_invocation ∷ metric_dispatch ∷ []
  | _ ↦ provider_invocation ∷ metric_dispatch ∷ aggregation ∷ persistence ∷ []
]

-- `text or ""`
abbrev pub or_empty : Option String → String
or_empty none = ""
or_empty (some t) = t

-- The texts of the item, where there is one with the index.
unfoldable pub item_metadata : Option DatasetItem → Texts
item_metadata none = []
item_metadata (some i) =
    ("prompt", i.prompt)
    ∷ ("reference", or_empty i.reference)
    ∷ ("context", or_empty i.context)
    ∷ ("item_id", or_empty i.id)
    ∷ []

-- `seconds or _DEFAULT_STEP_TIMEOUT_SECONDS`
abbrev pub timeout_of : Option ℕ → ℕ
timeout_of none = 120
timeout_of (some n) = if n == 0 then 120 else n

abbrev pub after : Option ℕ → List ℕ
after none = []
after (some id) = id ∷ []

-- The loop of `_build_steps` from an index on, with the id of the step before; `fresh` gives the ids.
module _ (fresh : ℕ → ℕ) (c : Config) (items : List DatasetItem) where
  unfoldable pub build_step : ℕ → Option ℕ → ExecutionStep
  unfolding item_metadata
  build_step idx prev = record {
    step_id = fresh idx;
    stage_type = provider_invocation;
    item_index = idx;
    dependencies = after prev;
    max_retries = c.max_retries_per_item;
    timeout_seconds = timeout_of c.timeout_per_item_seconds;
    position = idx;
    metadata = item_metadata (get_elem? items idx);
  }

  unfoldable pub build_from : ℕ → ℕ → Option ℕ → List ExecutionStep
  unfolding build_step
  build_from idx zero prev = []
  build_from idx (suc n) prev = build_step idx prev ∷ build_from (suc idx) n (some (fresh idx))

  unfoldable pub build_steps : List ExecutionStep
  unfolding build_from resolve_row_count
  build_steps = build_from 0 (resolve_row_count c items) none

  unfoldable pub plan_of : ℕ → ExecutionPlan
  unfolding determine_stages resolve_row_count build_steps
  plan_of run_id = record {
    run_id = run_id;
    stages = determine_stages c;
    steps = build_steps;
    total_items = resolve_row_count c items;
  }

unfoldable pub plan : Store → (ℕ → ℕ) → Config → ℕ → Result String ExecutionPlan
unfolding resolve_dataset_items plan_of
plan store fresh c run_id = elim (resolve_dataset_items store c) [
  | ok items ↦ ok (plan_of fresh c items run_id)
  | raised text ↦ raised text
]

pub data PlanError : Type 0 where
  no_stages no_steps : PlanError

-- `total_items` is never negative and a run always has an id, so that two of the four tests are left.
unfoldable pub validate_plan : ExecutionPlan → List PlanError
validate_plan p =
    (elim p.stages [ [] ↦ no_stages ∷ [] | _ ∷ _ ↦ [] ])
    ++ (elim p.steps [ [] ↦ if ltb 0 p.total_items then no_steps ∷ [] else [] | _ ∷ _ ↦ [] ])
