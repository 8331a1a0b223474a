-- ===== src/Evaluation/Orchestration/Outcome.antt =====
-- How `execute_run` and `resume_run` end.
use mathlib.Core.Path.{subst}
use redops.Base.{
  ℕ, false, none, count_if, count_if-le-length, ◌≤◌, ◌<◌, ◌≡◌, refl, ◌∙◌, sym, ap, arith, ok, is_ok,
  leb, leb→le, not_leb→lt, inl, inr, Bool-cases, return, pos, Float,
}
use redops.Ai.{created, running, completed}
use redops.Evaluation.Run.{Setup, EvaluationRun, queue, start}
use redops.Evaluation.Run.Methods.{
  queue_created, queue_setup, start_queued, start_total, complete_running,
}
use redops.Evaluation.Orchestration.{ExecutionPlan, ExecutionResult, success}
use redops.Evaluation.Orchestration.Planner.{Config, plan}
use redops.Evaluation.Orchestration.Executor.{execute}
use redops.Evaluation.Orchestration.Chain.{plan-IsPlan}
use redops.Evaluation.Orchestration.Dispatch.{succeeds, execute-Undispatched, pipeline_built}
use redops.Evaluation.Orchestration.Orchestrator.{
  World, Services, Step, Tried, executed, enqueue, attempt, settle, execute_run,
}
use redops.Evaluation.Orchestration.Steps.{
  stored_as, enqueue_created, launch_queued, attempt_planned, settle_complete, settle_short,
}

-- The run is completed and stored, and the result says so.
pub record Completes {F : Type 0} (c : Step F ExecutionResult) : Type 0 where
  pub result : ExecutionResult
  pub returns : c.result ≡ ok result
  pub outcome : result.outcome ≡ success
  pub status : c.self.run.status ≡ completed
  pub stored : c.self.stored ≡ c.self.run

-- The call raises, and leaves the run running, also where it is stored.
pub record Strands {F : Type 0} (c : Step F ExecutionResult) : Type 0 where
  pub raises : is_ok c ≡ false
  pub status : c.self.run.status ≡ running
  pub stored : c.self.stored.status ≡ running

-- By how many of the invocations answer.
pub data Ends {F : Type 0} (answers total : ℕ) (c : Step F ExecutionResult) : Type 0 where
  all_answered : answers ≡ total → Completes c → Ends answers total c
  some_missing : answers < total → Strands c → Ends answers total c

module _ {F S A : Type 0} ⦃fl : Float F⦄ (services : Services S A) (config : Config)
    (saves : (i : ℕ) → services.save_error i ≡ none) where
  executed_run :
      (w v u : World F) (t : Tried)
      → enqueue services config w ≡ return v tt
      → attempt services config v ≡ return u t
      → execute_run services config w ≡ settle services config t u
  unfolding execute_run
  executed_run w v u t e f = rw (e, f) refl

  settled :
      (r : ExecutionResult) (n total : ℕ) (u : World F)
      → r.outcome ≡ success
      → r.items_succeeded ≡ n
      → n ≤ total
      → u.run.status ≡ running
      → u.run.items_total ≡ total
      → u.stored ≡ u.run
      → Ends n total (settle services config (executed r) u)
  settled r n total u o k le status all stored = elim (Bool-cases (leb total n)) [
    | inl enough ↦
        let done =
          complete_running (services.clock 4) (record u.run { items_completed = r.items_succeeded })
            status (omega (arith, leb→le total n enough)) in
        all_answered (omega (arith, leb→le total n enough)) (
          subst Completes
            (sym (
              settle_complete services config saves r u o status
                (omega (arith, leb→le total n enough))))
            (record {
              result = r;
              returns = refl;
              outcome = o;
              status = done.status;
              stored = refl;
            }))
    | inr short ↦
        let (raises, same, kept) =
          settle_short services config saves r u o status
            (omega (arith, not_leb→lt total n short)) in
        some_missing (not_leb→lt total n short) (record {
          raises = raises;
          status = same;
          stored = ap (λ (x : EvaluationRun F). x.status) (kept ∙ stored) ∙ status;
        })
  ]

  -- A new run, with a planner that returns a plan and a repository that saves: the run is completed where
  -- every invocation of the provider answers; where one does not, `execute_run` raises and the run stays
  -- running, also in the repository.
  pub execute_run-Ends :
      (w : World F) (p : ExecutionPlan)
      → w.run.status ≡ created
      → plan services.store services.fresh config w.run.setup.id ≡ ok p
      → Ends
          (count_if (succeeds services.environment) p.steps)
          p.total_items
          (execute_run services config w)
  execute_run-Ends w p new e =
      let planned = plan-IsPlan services.store services.fresh config w.run.setup.id p e in
      let (stages, built) =
        pipeline_built services.environment services.store services.fresh config w.run.setup.id p
          e in
      let run =
        execute-Undispatched services.environment services.store services.fresh config
          w.run.setup.id p stages e built in
      let q = (queue (services.clock 0) w.run).self in
      let in_queue = (queue_created (services.clock 0) w.run new).status in
      let s = (start (pos p.total_items) (services.clock 2) q).self in
      subst (Ends (count_if (succeeds services.environment) p.steps) p.total_items)
        (sym (
          executed_run w (stored_as q) (stored_as s) _ (enqueue_created services config saves w new)
            (attempt_planned services config saves p (stored_as q)
                (ap (λ n. plan services.store services.fresh config n)
                    (ap (λ (x : Setup). x.id) (queue_setup (services.clock 0) w.run))
                  ∙ e)
                planned.valid
              ∙ launch_queued services config saves p stages (stored_as q) built in_queue)))
        (settled (execute services.environment config.metrics false p stages).0 _ p.total_items
          (stored_as s) run.outcome run.succeeded
          (omega (arith, planned.steps, count_if-le-length (succeeds services.environment) p.steps))
          (start_queued (services.clock 2) q p.total_items in_queue).status
          (start_total (services.clock 2) q p.total_items in_queue) refl)
