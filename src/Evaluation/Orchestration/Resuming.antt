-- ===== src/Evaluation/Orchestration/Resuming.antt =====
-- How `resume_run` ends, and `execute_run` where the dataset cannot be loaded.
use redops.Base.{
  ℕ, String, true, false, Option, none, some, List, is_some, ◌≡◌, refl, ◌∙◌, ap, arith, Result, ok,
  raised, Call, is_ok, except, and_then, raised_by, and_then_raised, return, Float,
}
use redops.Ai.{created, queued, running, paused, failed, same_status}
use redops.Evaluation.Run.{EvaluationRun, RunCheckpoint, Setup, queue, resume, fail}
use redops.Evaluation.Run.Methods.{
  queue_created, queue_setup, start_running, fail_running, fail_queued, resume_paused,
}
use redops.Evaluation.Orchestration.{ExecutionPlan, ExecutionResult, failure}
use redops.Evaluation.Orchestration.Planner.{Config, plan}
use redops.Evaluation.Orchestration.Executor.{Stage, build_pipeline}
use redops.Evaluation.Orchestration.Chain.{plan-IsPlan}
use redops.Evaluation.Orchestration.Dispatch.{pipeline_built}
use redops.Evaluation.Orchestration.Orchestrator.{
  World, Services, Step, Fault, external_error, Tried, returned, error_result, enqueue, launch,
  attempt, settle, execute_run, resume_run, give_up, fail_and_save,
}
use redops.Evaluation.Orchestration.Steps.{
  stored_as, enqueue_created, attempt_planned, method_saved, method_refused,
}

-- The call returns a failure, and the run has failed and is stored so.
pub record Fails {F : Type 0} (c : Step F ExecutionResult) : Type 0 where
  pub result : ExecutionResult
  pub returns : c.result ≡ ok result
  pub outcome : result.outcome ≡ failure
  pub status : c.self.run.status ≡ failed
  pub stored : c.self.stored ≡ c.self.run

module _ {F S A : Type 0} ⦃fl : Float F⦄ (services : Services S A) (config : Config)
    (saves : (i : ℕ) → services.save_error i ≡ none) where
  launch_running :
      (p : ExecutionPlan) (stages : List Stage) (w : World F)
      → build_pipeline p.stages ≡ ok stages
      → w.run.status ≡ running
      → (is_ok (launch services config p w) ≡ false)
        × ((launch services config p w).self.run.status ≡ running)
  unfolding launch
  launch_running p stages w e h =
      let (raises, same) = start_running (services.clock 2) w.run p.total_items h in
      rw (launch, e) (ground (arith, raises), ground (arith, raises, same))

  -- A run that is running already is not started again.
  attempt_running :
      (o : Result String ExecutionPlan) (w : World F)
      → plan services.store services.fresh config w.run.setup.id ≡ o
      → w.run.status ≡ running
      → (is_ok (attempt services config w) ≡ false)
        × ((attempt services config w).self.run.status ≡ running)
  unfolding attempt
  attempt_running (raised text) w e h = rw (attempt, e) (refl, h)
  attempt_running (ok p) w e h =
      let planned = plan-IsPlan services.store services.fresh config w.run.setup.id p e in
      let (stages, built) =
        pipeline_built services.environment services.store services.fresh config w.run.setup.id p
          e in
      rw (attempt_planned services config saves p w e planned.valid)
        (launch_running p stages w built h)

  -- `except` on a run that is running: the run fails, and is stored so.
  given_up :
      (e : Fault) (w : World F)
      → w.run.status ≡ running
      → give_up services config e w ≡ (
          let r = (fail "EXECUTION_FAILED" (services.describe e) (services.clock 3) w.run).self in
          return (stored_as r) (returned (error_result services config r (services.describe e))))
  unfolding give_up
  given_up e w h =
      rw
        (method_saved services config saves 3 _ w
          (fail_running (services.clock 3) w.run "EXECUTION_FAILED" (services.describe e) h))
        refl

  executed_by :
      (w v u : World F) (t : Tried)
      → enqueue services config w ≡ return v tt
      → except (attempt services config v) (give_up services config) ≡ return u t
      → execute_run services config w ≡ settle services config t u
  unfolding execute_run
  executed_by w v u t e f = rw (e, f) refl

  -- `attempt` raises on a run that is running, and the run is given up.
  abandoned :
      (w : World F)
      → is_ok (attempt services config w) ≡ false
      → (attempt services config w).self.run.status ≡ running
      → Fails (
          and_then
            (except (attempt services config w) (give_up services config))
            (settle services config))
  unfolding settle error_result
  abandoned w raises status =
      let (e, same) = raised_by (attempt services config w) raises in
      let gone = given_up e (attempt services config w).self status in
      rw (same, gone)
        (record {
          result = _;
          returns = refl;
          outcome = refl;
          status =
              (fail_running (services.clock 3) _ "EXECUTION_FAILED" (services.describe e)
                status).status;
          stored = refl;
        })

  execute_running : (w : World F) → w.run.status ≡ running → Fails (execute_run services config w)
  unfolding execute_run enqueue
  execute_running w h =
      let (raises, status) =
        attempt_running (plan services.store services.fresh config w.run.setup.id) w refl h in
      rw (ap (λ s. same_status s created) h) (abandoned w raises status)

  -- A queued run cannot fail, so that giving it up raises and changes nothing.
  given_up_queued :
      (e : Fault) (w : World F)
      → w.run.status ≡ queued
      → (is_ok (give_up services config e w) ≡ false)
        × ((give_up services config e w).self.run ≡ w.run)
        × ((give_up services config e w).self.stored ≡ w.stored)
  unfolding give_up
  given_up_queued e w h =
      let c = fail "EXECUTION_FAILED" (services.describe e) (services.clock 3) w.run in
      let (raises, same) =
        fail_queued (services.clock 3) w.run "EXECUTION_FAILED" (services.describe e) h in
      let (refused, run, stored) = method_refused services config saves 3 c w raises in
      let (over, self) =
        and_then_raised (fail_and_save services config 3 "EXECUTION_FAILED" (services.describe e) w)
          (λ _ v. return v (returned (error_result services config v.run (services.describe e))))
          refused in
      (
        over,
        ap (λ (x : World F). x.run) self ∙ run ∙ same,
        ap (λ (x : World F). x.stored) self ∙ stored,
      )

-- The call returns a failure, and the run has failed and is stored so; with the run that was found.
pub record FailsFound {F : Type 0} (c : Call (Option (World F)) Fault ExecutionResult)
    : Type 0 where
  pub world : World F
  pub result : ExecutionResult
  pub self : c.self ≡ some world
  pub returns : c.result ≡ ok result
  pub outcome : result.outcome ≡ failure
  pub status : world.run.status ≡ failed
  pub stored : world.stored ≡ world.run

module _ {F S A : Type 0} ⦃fl : Float F⦄ (services : Services S A) (config : Config)
    (saves : (i : ℕ) → services.save_error i ≡ none) where
  -- A paused run with a checkpoint, with a repository that saves: `resume_run` does not go on with it. It
  -- returns a failure, and the run has failed, also in the repository.
  pub resume_run-FailsFound :
      (r : EvaluationRun F) (latest : RunCheckpoint)
      → r.status ≡ paused
      → is_some r.checkpoint ≡ true
      → FailsFound (resume_run services config (some latest) (some r))
  unfolding resume_run
  resume_run-FailsFound r latest h k =
      let resumed = resume_paused (services.clock 5) r h k in
      let q = (resume (services.clock 5) r).self in
      let end = execute_running services config saves (stored_as q) resumed.status in
      rw (ap (λ s. same_status s paused) h, resumed.returns, saves 5)
        (record {
          world = (execute_run services config (stored_as q)).self;
          result = end.result;
          self = refl;
          returns = end.returns;
          outcome = end.outcome;
          status = end.status;
          stored = end.stored;
        })

  -- A new run whose dataset cannot be loaded, with a repository that saves: the handler of the exception
  -- raises itself, since a queued run cannot fail, and the run stays queued, also in the repository.
  pub execute_run_unloaded :
      (w : World F) (text : String)
      → w.run.status ≡ created
      → plan services.store services.fresh config w.run.setup.id ≡ raised text
      → let c = execute_run services config w in
        (is_ok c ≡ false) × (c.self.run.status ≡ queued) × (c.self.stored.status ≡ queued)
  unfolding execute_run attempt give_up
  execute_run_unloaded w text new e =
      let q = (queue (services.clock 0) w.run).self in
      let status = (queue_created (services.clock 0) w.run new).status in
      let (refused, run, stored) =
        given_up_queued services config saves (external_error text) (stored_as q) status in
      let (raises, self) =
        and_then_raised (give_up services config (external_error text) (stored_as q))
          (settle services config) refused in
      rw
        (
          enqueue_created services config saves w new,
          attempt,
          ap (λ n. plan services.store services.fresh config n)
                (ap (λ (x : Setup). x.id) (queue_setup (services.clock 0) w.run))
              ∙ e,
        )
        (
          raises,
          ap (λ (x : World F). x.run.status) self
              ∙ ap (λ (x : EvaluationRun F). x.status) run
              ∙ status,
          ap (λ (x : World F). x.stored.status) self
              ∙ ap (λ (x : EvaluationRun F). x.status) stored
              ∙ status,
        )
