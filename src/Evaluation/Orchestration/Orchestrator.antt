-- ===== src/Evaluation/Orchestration/Orchestrator.antt =====
-- backend/app/evaluation/orchestration/orchestrator.py, `EvaluationOrchestrator`. The table of active
-- contexts, whose entry `cancel_run` replaces, is left out: the executor keeps the context that it was
-- given. The observer does nothing at the start and at the end of a run.
use Prim.Native.String.{◌++◌ as append}
use redops.Base.{
  ℕ, String, Bool, false, Option, none, some, List, [], ◌∷◌, if◌then◌else◌, ok, raised, Clock, Call,
  return, raise, and_then, except, pos, Float,
}
use redops.Ai.{created, running, paused, same_status, is_terminal, CancellationReason}
use redops.Evaluation.Run.{
  EvaluationRun, RunCall, RunError, RunCheckpoint, queue, start, pause, resume, fail, cancel,
  complete,
}
use redops.Evaluation.Orchestration.{
  StageType, success, failure, cancelled, ExecutionPlan, ExecutionResult,
}
use redops.Evaluation.Orchestration.Planner.{
  Config, Store, PlanError, no_stages, no_steps, plan, validate_plan,
}
use redops.Evaluation.Orchestration.Stages.{Environment}
use redops.Evaluation.Orchestration.Executor.{build_pipeline, execute}

-- The run that the orchestrator works on, and what the repository has stored of it.
pub record World (F : Type 0) : Type 0 where
  pub run : EvaluationRun F
  pub stored : EvaluationRun F

-- What is raised: by a method of the run, by a call of a store or a repository, and by the orchestrator.
pub data Fault : Type 0 where
  run_error : RunError → Fault
  external_error : String → Fault
  no_stage : StageType → Fault
  not_found not_running not_paused is_over no_checkpoint : Fault

-- What an orchestrator is made with: the environment of its stages, the dataset store, the fresh ids,
-- the error of the save with a number, if it raises, the `str` of an error, and the clock of the method
-- call with a number.
pub record Services (S A : Type 0) : Type 0 where
  pub environment : Environment S A
  pub store : Store
  pub fresh : ℕ → ℕ
  pub save_error : ℕ → Option String
  pub describe : Fault → String
  pub clock : ℕ → Clock

abbrev pub Step : Type 0 → Type 0 → Type 0
Step F A = Call (World F) Fault A

message : PlanError → String
message no_stages = "Plan has no stages"
message no_steps = "Plan has items but no steps"

-- `"; ".join(errors)`
joined : PlanError → List PlanError → String
unfolding message
joined e [] = message e
joined e (f ∷ es) = append (message e) (append "; " (joined f es))

-- A method of the run, called by the orchestrator.
abbrev pub on_run : {F : Type 0} → RunCall F → World F → Step F Unit
on_run c w = record {
  self = record w { run = c.self };
  result = elim c.result [ ok a ↦ ok a | raised e ↦ raised (run_error e) ];
}

-- `save` of the repository, with what it raises.
abbrev pub written : {F : Type 0} → Option String → World F → Step F Unit
written none w = return (record w { stored = w.run }) tt
written (some text) w = raise w (external_error text)

-- How the body of the `try` ends without an exception: with a return, or at its end.
pub data Tried : Type 0 where
  returned : ExecutionResult → Tried
  executed : ExecutionResult → Tried

-- `result.error or …`
reason_of : Option String → String
reason_of none = "Execution completed with failures"
reason_of (some text) = text

module _ {F S A : Type 0} ⦃fl : Float F⦄ (services : Services S A) (config : Config) where
  abbrev pub save : ℕ → World F → Step F Unit
  save i w = written (services.save_error i) w

  -- `_build_error_result`
  unfoldable pub error_result : EvaluationRun F → String → ExecutionResult
  error_result r text = record {
    run_id = r.setup.id;
    outcome = failure;
    stage_results = [];
    total_items = r.items_total;
    items_processed = 0;
    items_succeeded = 0;
    items_failed = 0;
    error = some text;
  }

  -- `run.fail(…)` and the save of the run.
  abbrev pub fail_and_save : ℕ → String → String → World F → Step F Unit
  fail_and_save i code text w =
      and_then (on_run (fail code text (services.clock i) w.run) w) (λ _ v. save i v)

  -- The run is queued and saved, where it is new.
  unfoldable pub enqueue : World F → Step F Unit
  enqueue w =
      if same_status w.run.status created
      then and_then (on_run (queue (services.clock 0) w.run) w) (λ _ v. save 0 v)
      else return w tt

  unfoldable pub launch : ExecutionPlan → World F → Step F Tried
  launch p w = elim (build_pipeline p.stages) [
    | raised t ↦ raise w (no_stage t)
    | ok stages ↦ and_then (on_run (start (pos p.total_items) (services.clock 2) w.run) w) λ _ v.
        and_then (save 2 v)
          λ _ u. return u (executed (execute services.environment config.metrics false p stages).0)
  ]

  unfoldable pub follow_plan : ExecutionPlan → World F → Step F Tried
  unfolding launch error_result joined message
  follow_plan p w = elim (validate_plan p) [
    | [] ↦ launch p w
    | e ∷ es ↦
        and_then (fail_and_save 1 "PLAN_VALIDATION_FAILED" (joined e es) w)
          λ _ v. return v (returned (error_result v.run (message e)))
  ]

  -- The body of the `try`. The context is that of the run, whose token is not cancelled.
  unfoldable pub attempt : World F → Step F Tried
  unfolding follow_plan
  attempt w = elim (plan services.store services.fresh config w.run.setup.id) [
    | raised text ↦ raise w (external_error text)
    | ok p ↦ follow_plan p w
  ]

  -- `except Exception as exc:`
  unfoldable pub give_up : Fault → World F → Step F Tried
  unfolding error_result
  give_up e w =
      and_then (fail_and_save 3 "EXECUTION_FAILED" (services.describe e) w)
        λ _ v. return v (returned (error_result v.run (services.describe e)))

  -- `_finalize_run`
  unfoldable pub finalize_run : ExecutionResult → World F → Step F Unit
  unfolding reason_of
  finalize_run r w =
      let counted = record w { run = record w.run { items_completed = r.items_succeeded } } in
      elim r.outcome [
        | success ↦
            and_then (on_run (complete (services.clock 4) counted.run) counted) (λ _ v. save 4 v)
        | cancelled ↦ save 4 w
        | _ ↦ fail_and_save 4 "EXECUTION_FAILED" (reason_of r.error) counted
      ]

  -- The `else` of the `try`.
  unfoldable pub settle : Tried → World F → Step F ExecutionResult
  unfolding finalize_run
  settle (returned r) w = return w r
  settle (executed r) w = and_then (finalize_run r w) (λ _ v. return v r)

  unfoldable pub execute_run : World F → Step F ExecutionResult
  unfolding enqueue attempt give_up settle
  execute_run w =
      and_then (enqueue w) λ _ v. and_then (except (attempt v) give_up) λ t u. settle t u

  -- `find_by_id`: without a run the call raises, and with one it goes on with it.
  abbrev pub found :
      {B : Type 0}
      → Option (EvaluationRun F)
      → (World F → Step F B)
      → Call (Option (World F)) Fault B
  found none next = raise none not_found
  found (some r) next =
      let c = next (record { run = r; stored = r }) in
      record { self = some c.self; result = c.result }

  unfoldable pub pause_run : Option (EvaluationRun F) → Call (Option (World F)) Fault Unit
  pause_run o = found o λ w.
      if same_status w.run.status running
      then and_then (on_run (pause (services.clock 0) w.run) w) (λ _ v. save 0 v)
      else raise w not_running

  -- With what `find_latest` returns.
  unfoldable pub resume_run :
      Option RunCheckpoint
      → Option (EvaluationRun F)
      → Call (Option (World F)) Fault ExecutionResult
  unfolding execute_run
  resume_run latest o = found o λ w.
      if same_status w.run.status paused
      then (elim latest [
        | none ↦ raise w no_checkpoint
        | some c ↦
            and_then (on_run (resume (services.clock 5) w.run) w)
              λ _ v. and_then (save 5 v) λ _ u. execute_run u
      ])
      else raise w not_paused

  unfoldable pub cancel_run : Bool → Option (EvaluationRun F) → Call (Option (World F)) Fault Unit
  cancel_run force o = found o λ w.
      if is_terminal w.run.status
      then raise w is_over
      else and_then
          (on_run (cancel CancellationReason.user_cancelled force (services.clock 0) w.run) w)
          (λ _ v. save 0 v)
