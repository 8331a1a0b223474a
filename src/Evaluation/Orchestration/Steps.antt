-- ===== src/Evaluation/Orchestration/Steps.antt =====
-- How the calls of `EvaluationOrchestrator` follow on one another: where nothing is raised, and where a
-- method of the run refuses.
use redops.Base.{
  ◌≤◌, ◌<◌, if_true, ℕ, false, none, List, [], ◌≡◌, refl, ◌∙◌, ap, arith, ok, return, and_then,
  is_ok, pos, Float,
}
use redops.Ai.{RunStatus, created, queued, running, same_status}
use redops.Evaluation.Run.{EvaluationRun, RunCall, queue, start, complete}
use redops.Evaluation.Run.Methods.{
  Arrives, queue_created, start_queued, complete_running, complete_short,
}
use redops.Evaluation.Orchestration.{ExecutionPlan, ExecutionResult, success}
use redops.Evaluation.Orchestration.Planner.{Config, plan, validate_plan}
use redops.Evaluation.Orchestration.Executor.{Stage, build_pipeline, execute}
use redops.Evaluation.Orchestration.Orchestrator.{
  World, Services, on_run, save, enqueue, launch, follow_plan, attempt, executed, finalize_run,
  settle,
}

-- The run, stored as it is.
abbrev pub stored_as : {F : Type 0} → EvaluationRun F → World F
stored_as r = record { run = r; stored = r }

module _ {F S A : Type 0} ⦃fl : Float F⦄ (services : Services S A) (config : Config)
    (saves : (i : ℕ) → services.save_error i ≡ none) where
  -- A method that returns, and the save behind it.
  pub method_saved :
      {s : RunStatus} (i : ℕ) (c : RunCall F) (w : World F)
      → Arrives c s
      → and_then (on_run c w) (λ _ v. save services config i v) ≡ return (stored_as c.self) tt
  method_saved i c w h = rw (h.returns, saves i)

  -- A method that raises, and the save behind it, which is not reached.
  pub method_refused :
      (i : ℕ) (c : RunCall F) (w : World F)
      → is_ok c ≡ false
      → let d = and_then (on_run c w) (λ _ v. save services config i v) in
        (is_ok d ≡ false) × (d.self.run ≡ c.self) × (d.self.stored ≡ w.stored)
  method_refused i c w h = ground arith

  pub enqueue_created :
      (w : World F)
      → w.run.status ≡ created
      → enqueue services config w ≡ return (stored_as (queue (services.clock 0) w.run).self) tt
  unfolding enqueue
  enqueue_created w h =
      if_true _ _ _ (ap (λ s. same_status s created) h)
      ∙ method_saved 0 _ w (queue_created (services.clock 0) w.run h)

  pub launch_queued :
      (p : ExecutionPlan) (stages : List Stage) (w : World F)
      → build_pipeline p.stages ≡ ok stages
      → w.run.status ≡ queued
      → launch services config p w
        ≡ return
            (stored_as (start (pos p.total_items) (services.clock 2) w.run).self)
            (executed (execute services.environment config.metrics false p stages).0)
  unfolding launch
  launch_queued p stages w e h =
      let begun = start_queued (services.clock 2) w.run p.total_items h in
      rw (launch, e, begun.returns, saves 2) refl

  pub attempt_planned :
      (p : ExecutionPlan) (w : World F)
      → plan services.store services.fresh config w.run.setup.id ≡ ok p
      → validate_plan p ≡ []
      → attempt services config w ≡ launch services config p w
  unfolding attempt follow_plan
  attempt_planned p w e v = rw (attempt, e, follow_plan, v) refl

  pub settle_complete :
      (r : ExecutionResult) (w : World F)
      → r.outcome ≡ success
      → w.run.status ≡ running
      → w.run.items_total ≤ r.items_succeeded
      → settle services config (executed r) w
        ≡ return
            (stored_as
              (complete
                (services.clock 4)
                (record w.run { items_completed = r.items_succeeded })).self)
            r
  unfolding settle finalize_run
  settle_complete r w o h k =
      let done =
        complete_running (services.clock 4) (record w.run { items_completed = r.items_succeeded }) h
          k in
      rw (finalize_run, o, done.returns, saves 4) refl

  -- A run with items missing is not completed, and neither counted nor stored.
  pub settle_short :
      (r : ExecutionResult) (w : World F)
      → r.outcome ≡ success
      → w.run.status ≡ running
      → r.items_succeeded < w.run.items_total
      → let c = settle services config (executed r) w in
        (is_ok c ≡ false) × (c.self.run.status ≡ running) × (c.self.stored ≡ w.stored)
  unfolding settle finalize_run
  settle_short r w o h k =
      let (raises, same) =
        complete_short (services.clock 4) (record w.run { items_completed = r.items_succeeded }) h
          k in
      ground (arith, raises, same)
