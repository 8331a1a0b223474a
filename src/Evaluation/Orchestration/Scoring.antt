-- ===== src/Evaluation/Orchestration/Scoring.antt =====
-- backend/app/evaluation/orchestration/executor.py: the stages that evaluate the metrics, sum them up and
-- store them.
use redops.Base.{
  ℕ, ◌+◌, leb, String, Bool, Option, none, some, List, [], ◌∷◌, ◌++◌, length, filter_by, map,
  to_set, put, str, str_eq, if◌then◌else◌, Result, ok, raised,
}
use redops.Ai.{StepStatus}
use redops.Evaluation.Orchestration.{
  StageType, metric_dispatch, aggregation, persistence, success, failure, ExecutionStep,
  StageResult, Texts, get_at, value_or, put_at,
}
use redops.Evaluation.Orchestration.Stages.{
  MetricResult, MetricInput, Environment, Shared, Tally, no_tally, passed_over, build_step_result,
  stage_result, text_at,
}

-- `d.update(e)`
abbrev pub update : Texts → Texts → Texts
update d [] = d
update d ((k, v) ∷ e) = update (put k v d) e

module _ {S A : Type 0} (env : Environment S A) (metric_names : List String)
    (is_cancelled : Bool) where
  -- `_build_metric_metadata`, but for the providers of the judge and of the embedding that it adds, and
  -- the input that is made with it; the lookup of the judge's provider may raise.
  unfoldable pub metric_input : Shared S A → ExecutionStep → Result String MetricInput
  unfolding text_at
  metric_input sh s =
      let executions = value_or [] (get_at s.item_index sh.item_executions) in
      let response = value_or "" (get_at s.item_index sh.provider_responses) in
      elim env.judge_error [
        | some text ↦ raised text
        | none ↦ ok (record {
          prompt = text_at "prompt" s.metadata;
          response = response;
          reference = text_at "reference" s.metadata;
          context = text_at "context" s.metadata;
          metadata = update executions s.metadata;
        })
      ]

  -- A metric that raises leaves a result with the error.
  unfoldable pub evaluate : ℕ → MetricInput → String → MetricResult S
  evaluate idx input name = elim (env.evaluate_single name idx input) [
    | ok r ↦ r
    | raised text ↦ record { metric_name = name; error = some text; scores = env.no_scores }
  ]

  -- The loop over the registered ones of the metrics.
  unfoldable pub evaluate_all : ℕ → MetricInput → List (MetricResult S)
  unfolding evaluate
  evaluate_all idx input = map (evaluate idx input) (filter_by env.is_registered metric_names)

  unfoldable pub score_step :
      ExecutionStep → Result String MetricInput → Tally × Shared S A → Tally × Shared S A
  unfolding evaluate_all build_step_result str
  score_step s (raised text) (y, sh) = (
    record y {
      step_results =
          y.step_results
          ++ (build_step_result s metric_dispatch StepStatus.failed failure (some text) "" [] ∷ []);
      failed = y.failed + 1;
    },
    sh,
  )
  score_step s (ok input) (y, sh) =
      let results = evaluate_all s.item_index input in
      let done =
        build_step_result s metric_dispatch StepStatus.completed success none ""
          (("metrics_evaluated", str (length results)) ∷ []) in
      (
        record y { step_results = y.step_results ++ (done ∷ []); succeeded = y.succeeded + 1 },
        record sh { metric_results = put_at s.item_index results sh.metric_results },
      )

  unfoldable pub score_steps : List ExecutionStep → Tally × Shared S A → Tally × Shared S A
  unfolding metric_input score_step build_step_result
  score_steps [] (y, sh) = (y, sh)
  score_steps (s ∷ ss) (y, sh) = score_steps ss (
      if is_cancelled
      then (passed_over metric_dispatch s y, sh)
      else score_step s (metric_input sh s) (y, sh))

  -- `MetricDispatchStage.execute`
  unfoldable pub metric_stage : List ExecutionStep → Shared S A → StageResult × Shared S A
  unfolding score_steps stage_result
  metric_stage ss sh =
      let (y, after) = score_steps ss (no_tally, sh) in (stage_result metric_dispatch y, after)

module _ {S A : Type 0} (env : Environment S A) where
  names_of : List (ℕ × List (MetricResult S)) → List String
  names_of [] = []
  names_of ((i, rs) ∷ m) = map (λ (r : MetricResult S). r.metric_name) rs ++ names_of m

  -- An item at its place in the order of the indices.
  insert :
      ℕ
      → List (MetricResult S)
      → List (ℕ × List (MetricResult S))
      → List (ℕ × List (MetricResult S))
  insert i rs [] = (i, rs) ∷ []
  insert i rs ((j, qs) ∷ m) =
      let rest = insert i rs m in if leb i j then (i, rs) ∷ (j, qs) ∷ m else (j, qs) ∷ rest

  sorted : List (ℕ × List (MetricResult S)) → List (ℕ × List (MetricResult S))
  unfolding insert
  sorted [] = []
  sorted ((i, rs) ∷ m) = insert i rs (sorted m)

  -- All results of a metric, in the order of the items.
  results_of : String → List (ℕ × List (MetricResult S)) → List (MetricResult S)
  results_of name [] = []
  results_of name ((i, rs) ∷ m) =
      filter_by (λ (r : MetricResult S). str_eq r.metric_name name) rs ++ results_of name m

  -- The loop over the names; `aggregate` may raise.
  aggregate_all :
      List (ℕ × List (MetricResult S))
      → List String
      → List (String × A)
      → Result String (List (String × A))
  unfolding results_of
  aggregate_all m [] done = ok done
  aggregate_all m (name ∷ names) done = elim (results_of name m) [
    | [] ↦ aggregate_all m names done
    | r ∷ rs ↦ elim (env.aggregate name (r ∷ rs)) [
      | ok a ↦ aggregate_all m names (put name a done)
      | raised text ↦ raised text
    ]
  ]

  abbrev pub plain_result : StageType → ℕ → StageResult
  plain_result t n = record {
    stage_type = t;
    outcome = success;
    step_results = [];
    error = none;
    items_processed = n;
    items_succeeded = n;
    items_failed = 0;
  }

  -- `AggregationStage.execute`
  unfoldable pub aggregation_stage : Shared S A → Result String (StageResult × Shared S A)
  unfolding names_of sorted aggregate_all
  aggregation_stage sh =
      elim (aggregate_all (sorted sh.metric_results) (to_set (names_of sh.metric_results)) []) [
        | ok found ↦
            ok (plain_result aggregation (length found), record sh { aggregations = found })
        | raised text ↦ raised text
      ]

  -- The loop over the items; what a `save_many` that raises was to store is not counted.
  save_all : (ℕ → List (MetricResult S) → Bool) → List (ℕ × List (MetricResult S)) → ℕ
  save_all saves [] = 0
  save_all saves ((i, rs) ∷ m) =
      let rest = save_all saves m in if saves i rs then length rs + rest else rest

  unfoldable pub persisted_count : Option (ℕ → List (MetricResult S) → Bool) → Shared S A → ℕ
  unfolding save_all
  persisted_count none sh = 0
  persisted_count (some saves) sh = save_all saves sh.metric_results

  -- `PersistenceStage.execute`
  unfoldable pub persistence_stage : Shared S A → StageResult × Shared S A
  unfolding persisted_count
  persistence_stage sh = (plain_result persistence (persisted_count env.save_many sh), sh)
