-- ===== src/Evaluation/Workflow.antt =====
-- backend/app/evaluation/temporal/workflow.py, `EvaluationRunWorkflow.run`. The activities, with their
-- retries, are an environment that says of each whether it returns; the log holds those that were called.
-- The trace and the fingerprint that are handed to the last but one activity, and times, are left out.
pub mod Script
pub mod Finishing
mod Tests
use redops.Base.{
  ℕ, zero, suc, ◌+◌, ◌==◌, String, Bool, true, false, ◌&&◌, Option, none, some, List, [], ◌∷◌, ◌++◌,
  if◌then◌else◌, Result, ok, raised, Call, return, raise, and_then, except, Float,
}

-- `ExecuteItemResult`; what is stored of the metrics is of an abstract type.
pub record ItemResult (F M : Type 0) : Type 0 where
  pub failed : Bool
  pub metrics : List M
  pub cost_usd : F
  pub cost_estimated : Bool
  pub tokens_input : ℕ
  pub tokens_output : ℕ

-- An activity that was called, with what is read of its input.
pub data Activity : Type 0 where
  queue_run : Activity
  start_run : ℕ → Activity
  execute_item : ℕ → Activity
  persist_metric_results : ℕ → Activity
  update_progress : ℕ → ℕ → Activity
  finalize_run_integrity : Activity
  fail_run : Activity
  complete_run : Activity
  cancel_run : Activity

-- What the activities answer; for those of an item, by its index. `reports` is the report of the progress
-- within the `try`, and `reports_failure` that of its handler.
pub record Environment (F M : Type 0) : Type 0 where
  pub queues : Bool
  pub starts : Bool
  pub executes : ℕ → Option (ItemResult F M)
  pub persists : ℕ → Bool
  pub reports : ℕ → Bool
  pub reports_failure : ℕ → Bool
  pub is_cancel_requested : ℕ → Bool
  pub cancels : Bool
  pub finalizes : Bool
  pub fails : Bool
  pub completes : Bool

-- The local variables of `run`, and the log.
pub record Locals (F M : Type 0) : Type 0 where
  pub items_completed : ℕ
  pub items_failed : ℕ
  pub item_results : List (ItemResult F M)
  pub total_cost_usd : F
  pub total_tokens_input : ℕ
  pub total_tokens_output : ℕ
  pub log : List Activity

pub data Status : Type 0 where
  completed failed cancelled : Status

pub record WorkflowResult (F : Type 0) : Type 0 where
  pub status : Status
  pub items_completed : ℕ
  pub items_total : ℕ
  pub items_failed : ℕ
  pub total_cost_usd : F
  pub total_tokens_input : ℕ
  pub total_tokens_output : ℕ
  pub cost_estimated_complete : Bool

-- The error of an activity that has used up its retries.
pub data ActivityError : Type 0 where
  activity_error : ActivityError

abbrev pub Run : Type 0 → Type 0 → Type 0 → Type 0
Run F M A = Call (Locals F M) ActivityError A

module _ {F M : Type 0} where
  -- `workflow.execute_activity(…)`, and whether it returns.
  abbrev pub call : Activity → Bool → Locals F M → Run F M Unit
  call a true w = return (record w { log = w.log ++ (a ∷ []) }) tt
  call a false w = raise (record w { log = w.log ++ (a ∷ []) }) activity_error

  -- `_cost_completeness_ok`
  unfoldable pub cost_completeness_ok : List (ItemResult F M) → Bool
  cost_completeness_ok [] = true
  cost_completeness_ok (r ∷ rs) = r.cost_estimated && cost_completeness_ok rs

  unfoldable pub result_of : Status → ℕ → Locals F M → WorkflowResult F
  unfolding cost_completeness_ok
  result_of s total w = record {
    status = s;
    items_completed = w.items_completed;
    items_total = total;
    items_failed = w.items_failed;
    total_cost_usd = w.total_cost_usd;
    total_tokens_input = w.total_tokens_input;
    total_tokens_output = w.total_tokens_output;
    cost_estimated_complete = cost_completeness_ok w.item_results;
  }

module _ {F M : Type 0} ⦃fl : Float F⦄ (env : Environment F M) where
  -- The counters after an item that was executed.
  unfoldable pub count_item : ItemResult F M → Locals F M → Locals F M
  count_item r w = record w {
    items_completed = w.items_completed + 1;
    item_results = w.item_results ++ (r ∷ []);
    total_cost_usd = fl.add w.total_cost_usd r.cost_usd;
    total_tokens_input = w.total_tokens_input + r.tokens_input;
    total_tokens_output = w.total_tokens_output + r.tokens_output;
  }

  -- `if item_result.failed: … elif item_result.metrics: …`
  unfoldable pub persist_item : ℕ → ItemResult F M → Locals F M → Run F M Unit
  persist_item idx r w =
      if r.failed
      then return (record w { items_failed = w.items_failed + 1 }) tt
      else (elim r.metrics [
        | [] ↦ return w tt
        | m ∷ ms ↦ call (persist_metric_results idx) (env.persists idx) w
      ])

  -- The body of the `try`, with what `execute_item_activity` returned.
  unfoldable pub process : ℕ → Option (ItemResult F M) → Locals F M → Run F M Unit
  unfolding count_item persist_item
  process idx none w = call (execute_item idx) false w
  process idx (some r) w = and_then (call (execute_item idx) true w) λ _ v.
      and_then (persist_item idx r (count_item r v))
        λ _ u. call (update_progress u.items_completed u.items_failed) (env.reports idx) u

  -- `except Exception:`
  unfoldable pub count_failure : ℕ → ActivityError → Locals F M → Run F M Unit
  count_failure idx e w =
      let v = record w {
        items_failed = w.items_failed + 1;
        items_completed = w.items_completed + 1;
      } in
      call (update_progress v.items_completed v.items_failed) (env.reports_failure idx) v

  unfoldable pub run_item : ℕ → Locals F M → Run F M Unit
  unfolding process count_failure
  run_item idx w = except (process idx (env.executes idx) w) (count_failure idx)

  -- The `for` loop, from an index on: it ends with the result of a cancelled run, or goes through.
  unfoldable pub run_items : ℕ → ℕ → ℕ → Locals F M → Run F M (Option (WorkflowResult F))
  unfolding run_item result_of
  run_items total idx zero w = return w none
  run_items total idx (suc n) w = elim (env.is_cancel_requested idx) [
    | true ↦
        and_then (call cancel_run env.cancels w)
          (λ _ v. return v (some (result_of cancelled total v)))
    | false ↦ and_then (run_item idx w) (λ _ v. run_items total (suc idx) n v)
  ]

  -- The end of the run, behind the loop.
  unfoldable pub conclude : ℕ → Locals F M → Run F M (WorkflowResult F)
  unfolding result_of
  conclude total w =
      if w.items_failed == total
      then and_then (call finalize_run_integrity env.finalizes w)
          (λ _ v. and_then (call fail_run env.fails v) (λ _ u. return u (result_of failed total u)))
      else and_then (call finalize_run_integrity env.finalizes w) (λ _ v.
        and_then (call complete_run env.completes v)
          (λ _ u. return u (result_of completed total u)))

  unfoldable pub settle : ℕ → Option (WorkflowResult F) → Locals F M → Run F M (WorkflowResult F)
  unfolding conclude
  settle total none w = conclude total w
  settle total (some r) w = return w r

  abbrev pub begin : Locals F M
  begin = record {
    items_completed = 0;
    items_failed = 0;
    item_results = [];
    total_cost_usd = fl.nought;
    total_tokens_input = 0;
    total_tokens_output = 0;
    log = [];
  }

  unfoldable pub run : ℕ → Run F M (WorkflowResult F)
  unfolding run_items settle
  run total = and_then (call queue_run env.queues begin) λ _ w.
      and_then (call (start_run total) env.starts w)
        λ _ v. and_then (run_items total 0 total v) λ r u. settle total r u
