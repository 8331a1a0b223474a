-- ===== src/Evaluation/Orchestration/Dispatch.antt =====
-- What the executor makes of a plan of `EvaluationPlanner`.
use mathlib.Core.Path.{subst}
use redops.Base.{
  All, ℕ, zero, suc, ◌+◌, String, Bool, true, false, Option, none, some, List, [], ◌∷◌, length,
  count_if, filter_by, Result, ok, ◌≡◌, refl, if◌then◌else◌, arith, ap, ◌∙◌,
}
use redops.Evaluation.Orchestration.{
  provider_invocation, metric_dispatch, ExecutionStep, ExecutionPlan, StepResult, StageType,
  same_stage, steps_for_stage, is_success, success, ExecutionResult,
}
use redops.Evaluation.Orchestration.Planner.{
  Store, plan, Config, DatasetItem, build_from, build_step, build_steps, resolve_row_count,
  determine_stages, plan_of, single,
}
use redops.Evaluation.Orchestration.Stages.{
  no_tally, Environment, Shared, Tally, invoke_steps, note_step, execute_step, provider_stage,
  stage_result,
}
use redops.Evaluation.Orchestration.Executor.{
  no_sums, nothing_shared, Stage, provider_invocation_stage, metric_dispatch_stage,
  aggregating_stage, persisting_stage, build_pipeline, execute, count_stage, run_stages, run_stage,
}
use redops.Evaluation.Orchestration.Chain.{plan_returned}
use redops.Evaluation.Orchestration.Idle.{is_later, Unscored, later_stages}

module _ (fresh : ℕ → ℕ) (c : Config) (items : List DatasetItem) where
  -- Every step of a plan is one of the provider's stage, and none is of another.
  provider_steps :
      (idx n : ℕ) (prev : Option ℕ)
      → filter_by
          (λ (s : ExecutionStep). same_stage s.stage_type provider_invocation)
          (build_from fresh c items idx n prev)
        ≡ build_from fresh c items idx n prev
  unfolding build_from
  provider_steps idx zero prev = refl
  provider_steps idx (suc n) prev =
      ap (◌∷◌ (build_step fresh c items idx prev)) (provider_steps (suc idx) n (some (fresh idx)))

  metric_steps :
      (idx n : ℕ) (prev : Option ℕ)
      → filter_by
          (λ (s : ExecutionStep). same_stage s.stage_type metric_dispatch)
          (build_from fresh c items idx n prev)
        ≡ []
  unfolding build_from
  metric_steps idx zero prev = refl
  metric_steps idx (suc n) prev = metric_steps (suc idx) n (some (fresh idx))

module _ {S A : Type 0} (env : Environment S A) where
  -- The steps whose invocation answers.
  abbrev pub succeeds : ExecutionStep → Bool
  succeeds s = is_success (execute_step env false s)

  noted :
      (s : ExecutionStep) (r : StepResult) (y : Tally) (sh : Shared S A)
      → let (z, after) = note_step env false s r (y, sh) in
        (z.succeeded ≡ y.succeeded + (if is_success r then 1 else 0))
        × (z.succeeded + z.failed ≡ y.succeeded + y.failed + 1)
        × (after.metric_results ≡ sh.metric_results)
        × (after.aggregations ≡ sh.aggregations)
  unfolding note_step
  noted s r y sh = ground arith

  invoked :
      (ss : List ExecutionStep) (y : Tally) (sh : Shared S A)
      → let (z, after) = invoke_steps env false ss (y, sh) in
        (z.succeeded ≡ y.succeeded + count_if succeeds ss)
        × (z.succeeded + z.failed ≡ y.succeeded + y.failed + length ss)
        × (after.metric_results ≡ sh.metric_results)
        × (after.aggregations ≡ sh.aggregations)
  unfolding invoke_steps
  invoked [] y sh = (omega arith, omega arith, refl, refl)
  invoked (s ∷ ss) y sh =
      let x = note_step env false s (execute_step env false s) (y, sh) in
      let (a, b, same, alike) = noted s (execute_step env false s) y sh in
      let (more, all, kept, held) = invoked ss x.0 x.1 in
      (omega arith, omega arith, kept ∙ same, held ∙ alike)

-- What a run of a pipeline comes to, and what it leaves in the shared state: all stages return, as many
-- items succeed as invocations of the provider do, and no metric is evaluated.
pub record Undispatched {S A : Type 0} (env : Environment S A) (p : ExecutionPlan)
    (x : ExecutionResult × Shared S A) : Type 0 where
  pub outcome : x.0.outcome ≡ success
  pub succeeded : x.0.items_succeeded ≡ count_if (succeeds env) p.steps
  pub processed : x.0.items_processed ≡ length p.steps
  pub unscored : x.1.metric_results ≡ []
  pub unsummed : x.1.aggregations ≡ []

module _ {S A : Type 0} (env : Environment S A) (names : List String) (fresh : ℕ → ℕ) (c : Config)
    (items : List DatasetItem) (run_id : ℕ) where
  abbrev planned : ExecutionPlan
  planned = plan_of fresh c items run_id

  abbrev later_of : Config → List Stage
  later_of c = elim c.eval_type [
    | single ↦ metric_dispatch_stage ∷ []
    | _ ↦ metric_dispatch_stage ∷ aggregating_stage ∷ persisting_stage ∷ []
  ]

  later_of-All : All (λ s. is_later s ≡ true) (later_of c)
  later_of-All = ground arith

  -- The pipeline of a plan can be built.
  pub build_pipeline_planned :
      build_pipeline planned.stages ≡ ok (provider_invocation_stage ∷ later_of c)
  unfolding plan_of build_pipeline determine_stages
  build_pipeline_planned = ground arith

  provider_only : steps_for_stage provider_invocation planned ≡ planned.steps
  unfolding steps_for_stage plan_of build_steps
  provider_only = provider_steps fresh c items 0 (resolve_row_count c items) none

  metric_none : steps_for_stage metric_dispatch planned ≡ []
  unfolding steps_for_stage plan_of build_steps
  metric_none = metric_steps fresh c items 0 (resolve_row_count c items) none

  all_stages : Unscored (count_if (succeeds env) planned.steps) (length planned.steps) (
      run_stages env names false planned
        (provider_invocation_stage ∷ later_of c)
        (no_sums, nothing_shared))
  unfolding run_stages run_stage provider_stage stage_result count_stage
  all_stages =
      let (k, n, unscored, unsummed) =
        invoked env planned.steps no_tally (nothing_shared {S = S} {A = A}) in
      later_stages env names planned metric_none (count_if (succeeds env) planned.steps)
        (length planned.steps) (later_of c) _ _ later_of-All
        (rw provider_only (refl, omega (arith, k), omega (arith, n), unscored, unsummed))

  counts :
      (k n : ℕ) (stages : List Stage)
      → Unscored k n (run_stages env names false planned stages (no_sums, nothing_shared))
      → let (r, after) = execute env names false planned stages in
        (r.outcome ≡ success)
        × (r.items_succeeded ≡ k)
        × (r.items_processed ≡ n)
        × (after.metric_results ≡ [])
        × (after.aggregations ≡ [])
  unfolding execute
  counts k n stages h = h

  pub execute-planned :
      Undispatched env planned
        (execute env names false planned (provider_invocation_stage ∷ later_of c))
  execute-planned =
      let (same, succeeded, processed, unscored, unsummed) =
        counts _ _ (provider_invocation_stage ∷ later_of c) all_stages in
      record {
        outcome = same;
        succeeded = succeeded;
        processed = processed;
        unscored = unscored;
        unsummed = unsummed;
      }

module _ {S A : Type 0} (env : Environment S A) (store : Store) (fresh : ℕ → ℕ) (c : Config)
    (run_id : ℕ) where
  ran :
      (o : Result StageType (List Stage)) (stages : List Stage) (p : ExecutionPlan)
      (others : List Stage)
      → o ≡ ok stages
      → o ≡ ok others
      → Undispatched env p (execute env c.metrics false p others)
      → Undispatched env p (execute env c.metrics false p stages)
  ran o stages p others e f h =
      subst (λ ss. Undispatched env p (execute env c.metrics false p ss)) (ground (arith, e, f)) h

  -- Where the planner returns a plan, its pipeline runs to its end with success whatever the provider
  -- does: as many items succeed as invocations answer, each item of the plan is processed, and no
  -- result of a metric is left in the shared state, nor anything summed up.
  pub execute-Undispatched :
      (p : ExecutionPlan) (stages : List Stage)
      → plan store fresh c run_id ≡ ok p
      → build_pipeline p.stages ≡ ok stages
      → Undispatched env p (execute env c.metrics false p stages)
  execute-Undispatched p stages h e =
      let (items, resolved, same) = plan_returned store fresh c run_id p h in
      subst
        (λ q.
          (build_pipeline q.stages ≡ ok stages)
          → Undispatched env q (execute env c.metrics false q stages))
        same
        (λ f.
          ran _ stages _ _ f (build_pipeline_planned env c.metrics fresh c items run_id)
            (execute-planned env c.metrics fresh c items run_id))
        e

  -- The pipeline of what the planner returns can be built.
  pub pipeline_built :
      (p : ExecutionPlan)
      → plan store fresh c run_id ≡ ok p
      → (stages : List Stage) × (build_pipeline p.stages ≡ ok stages)
  pipeline_built p h =
      let (items, resolved, same) = plan_returned store fresh c run_id p h in
      subst (λ (q : ExecutionPlan). (stages : List Stage) × (build_pipeline q.stages ≡ ok stages))
        same (_, build_pipeline_planned env c.metrics fresh c items run_id)
