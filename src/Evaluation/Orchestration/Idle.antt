-- ===== src/Evaluation/Orchestration/Idle.antt =====
-- The stages behind that of the provider, which the executor runs without a step.
use redops.Base.{
  All, to_set, ℕ, ◌+◌, String, Bool, true, false, Option, none, some, List, [], ◌∷◌, Result, ok,
  ◌≡◌, refl, arith,
}
use redops.Evaluation.Orchestration.{
  metric_dispatch, aggregation, persistence, ExecutionPlan, StageResult, steps_for_stage, success,
}
use redops.Evaluation.Orchestration.Stages.{
  MetricResult, no_tally, Environment, Shared, stage_result,
}
use redops.Evaluation.Orchestration.Scoring.{
  plain_result, persisted_count, metric_stage, aggregation_stage, persistence_stage, score_steps,
}
use redops.Evaluation.Orchestration.Executor.{
  Stage, Sums, provider_invocation_stage, metric_dispatch_stage, aggregating_stage,
  persisting_stage, count_stage, run_stages, run_stage,
}

-- The stages behind the one that invokes the provider.
abbrev pub is_later : Stage → Bool
is_later provider_invocation_stage = false
is_later _ = true

-- Nothing is scored, and `k` of `n` items have succeeded.
abbrev pub Unscored : {S A : Type 0} → ℕ → ℕ → Sums × Shared S A → Type 0
Unscored k n (u, sh) =
    (u.outcome ≡ success)
    × (u.items_succeeded ≡ k)
    × (u.items_succeeded + u.items_failed ≡ n)
    × (sh.metric_results ≡ [])
    × (sh.aggregations ≡ [])

-- A stage that returns without an item and leaves nothing scored.
record Idle {S A : Type 0} (o : Result String (StageResult × Shared S A)) : Type 0 where
  stage : StageResult
  next : Shared S A
  returns : o ≡ ok (stage, next)
  none_succeeded : stage.items_succeeded ≡ 0
  none_failed : stage.items_failed ≡ 0
  unscored : next.metric_results ≡ []
  unsummed : next.aggregations ≡ []

module _ {S A : Type 0} (env : Environment S A) (names : List String) (p : ExecutionPlan)
    (dispatched : steps_for_stage metric_dispatch p ≡ []) where
  persisted_none :
      (o : Option (ℕ → List (MetricResult S) → Bool)) (sh : Shared S A)
      → sh.metric_results ≡ []
      → persisted_count env o sh ≡ 0
  unfolding persisted_count
  persisted_none none sh h = refl
  persisted_none (some saves) sh h = rw h

  run_stage-Idle :
      (s : Stage) (sh : Shared S A)
      → is_later s ≡ true
      → sh.metric_results ≡ []
      → sh.aggregations ≡ []
      → Idle (run_stage env names false p s sh)
  unfolding run_stage metric_stage aggregation_stage persistence_stage score_steps stage_result
      to_set
  run_stage-Idle provider_invocation_stage sh l h k = absurd (ground arith)
  run_stage-Idle metric_dispatch_stage sh l h k = record {
    stage = stage_result metric_dispatch no_tally;
    next = sh;
    returns = rw dispatched;
    none_succeeded = refl;
    none_failed = refl;
    unscored = h;
    unsummed = k;
  }
  run_stage-Idle aggregating_stage sh l h k = record {
    stage = plain_result env aggregation 0;
    next = record sh { aggregations = [] };
    returns = rw h;
    none_succeeded = refl;
    none_failed = refl;
    unscored = h;
    unsummed = refl;
  }
  run_stage-Idle persisting_stage sh l h k = record {
    stage = plain_result env persistence (persisted_count env env.save_many sh);
    next = sh;
    returns = refl;
    none_succeeded = persisted_none env.save_many sh h;
    none_failed = refl;
    unscored = h;
    unsummed = k;
  }

  pub later_stages :
      (k n : ℕ) (ss : List Stage) (u : Sums) (sh : Shared S A)
      → All (λ s. is_later s ≡ true) ss
      → Unscored k n (u, sh)
      → Unscored k n (run_stages env names false p ss (u, sh))
  unfolding run_stages count_stage
  later_stages k n [] u sh l h = h
  later_stages k n (s ∷ ss) u sh l (same, succeeded, all, unscored, unsummed) =
      let idle = run_stage-Idle s sh l.0 unscored unsummed in
      rw (run_stages, idle.returns)
        (later_stages k n ss (count_stage idle.stage u) idle.next l.1 (
          same,
          omega (arith, idle.none_succeeded),
          omega (arith, idle.none_succeeded, idle.none_failed),
          idle.unscored,
          idle.unsummed,
        ))
