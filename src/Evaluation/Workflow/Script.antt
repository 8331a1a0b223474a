-- ===== src/Evaluation/Workflow/Script.antt =====
-- In which order `EvaluationRunWorkflow.run` calls its activities.
use redops.Base.{
  ℕ, ◌+◌, zero, suc, ◌==◌, Bool, true, false, Option, none, some, List, [], ◌∷◌, ◌++◌, All,
  All-append, ◌≡◌, refl, sym, if_ind, ok, raised, return, and_then, and_then_ind, except_ind, Float,
}
use mathlib.Core.List.{append_assoc, append-nil}
use redops.Evaluation.Workflow.{
  ItemResult, Activity, queue_run, start_run, execute_item, persist_metric_results, update_progress,
  finalize_run_integrity, fail_run, complete_run, cancel_run, Environment, Locals, Status,
  completed, failed, cancelled, WorkflowResult, Run, call, result_of, count_item, persist_item,
  process, count_failure, run_item, run_items, conclude, settle, begin, run,
}

-- The activities that do not end a run.
abbrev is_early : Activity → Bool
is_early finalize_run_integrity = false
is_early fail_run = false
is_early complete_run = false
is_early cancel_run = false
is_early _ = true

-- The activities at the end of a run, with the status that it returns, if it does.
pub data Ending : List Activity → Option Status → Type 0 where
  broken_off : Ending [] none
  cancelling : Ending (cancel_run ∷ []) none
  was_cancelled : Ending (cancel_run ∷ []) (some cancelled)
  finalizing : Ending (finalize_run_integrity ∷ []) none
  failing : Ending (finalize_run_integrity ∷ fail_run ∷ []) none
  has_failed : Ending (finalize_run_integrity ∷ fail_run ∷ []) (some failed)
  completing : Ending (finalize_run_integrity ∷ complete_run ∷ []) none
  has_completed : Ending (finalize_run_integrity ∷ complete_run ∷ []) (some completed)

-- The log of a run: what does not end it, and then one of the endings.
pub record IsScript (log : List Activity) (status : Option Status) : Type 0 where
  pub before : List Activity
  pub ending : List Activity
  pub parts : log ≡ before ++ ending
  pub early : All (λ a. is_early a ≡ true) before
  pub ended : Ending ending status

-- The status that a run returns, if it does.
abbrev pub status_of : {F M : Type 0} → Run F M (WorkflowResult F) → Option Status
status_of c = elim c.result [ ok r ↦ some r.status | raised e ↦ none ]

-- A run that breaks off before one of its last activities.
early-IsScript : (log : List Activity) → All (λ a. is_early a ≡ true) log → IsScript log none
early-IsScript log h = record {
  before = log;
  ending = [];
  parts = sym (append-nil log);
  early = h;
  ended = broken_off;
}

module _ {F M : Type 0} where
  abbrev Early : {A : Type 0} → Run F M A → Type 0
  Early c = All (λ a. is_early a ≡ true) c.self.log

  call-Early :
      (a : Activity) (b : Bool) (w : Locals F M)
      → is_early a ≡ true
      → All (λ a. is_early a ≡ true) w.log
      → Early (call a b w)
  call-Early a true w e h = All-append (λ a. is_early a ≡ true) w.log (a ∷ []) h (e, tt)
  call-Early a false w e h = All-append (λ a. is_early a ≡ true) w.log (a ∷ []) h (e, tt)

module _ {F M : Type 0} ⦃fl : Float F⦄ (env : Environment F M) where
  persist_item-Early :
      (idx : ℕ) (r : ItemResult F M) (w : Locals F M)
      → All (λ a. is_early a ≡ true) w.log
      → Early (persist_item env idx r w)
  unfolding persist_item
  persist_item-Early idx r w h = if_ind Early r.failed h (stored r.metrics)
    where
      stored :
          (ms : List M)
          → Early (elim ms [
            | [] ↦ return w tt
            | m ∷ ms ↦ call (persist_metric_results idx) (env.persists idx) w
          ])
      stored [] = h
      stored (m ∷ ms) = call-Early (persist_metric_results idx) (env.persists idx) w refl h

  process-Early :
      (idx : ℕ) (o : Option (ItemResult F M)) (w : Locals F M)
      → All (λ a. is_early a ≡ true) w.log
      → Early (process env idx o w)
  unfolding process count_item
  process-Early idx none w h = call-Early (execute_item idx) false w refl h
  process-Early idx (some r) w h =
      let v = count_item env r (call (execute_item idx) true w).self in
      and_then_ind Early Early (persist_item env idx r v)
        (λ _ u. call (update_progress u.items_completed u.items_failed) (env.reports idx) u)
        (persist_item-Early idx r v (call-Early (execute_item idx) true w refl h)) (λ s e k. k)
        (λ s a k.
          call-Early (update_progress s.items_completed s.items_failed) (env.reports idx) s refl k)

  run_item-Early :
      (idx : ℕ) (w : Locals F M) → All (λ a. is_early a ≡ true) w.log → Early (run_item env idx w)
  unfolding run_item count_failure
  run_item-Early idx w h =
      except_ind Early (process env idx (env.executes idx) w) (count_failure env idx)
        (process-Early idx (env.executes idx) w h)
        (λ s e k.
          call-Early (update_progress (s.items_completed + 1) (s.items_failed + 1))
            (env.reports_failure idx)
            (record s {
              items_failed = s.items_failed + 1;
              items_completed = s.items_completed + 1;
            })
            refl k)

  -- What holds when the loop has ended.
  abbrev Looped : Run F M (Option (WorkflowResult F)) → Type 0
  Looped c = elim c.result [
    | raised e ↦ IsScript c.self.log none
    | ok none ↦ All (λ a. is_early a ≡ true) c.self.log
    | ok (some r) ↦ IsScript c.self.log (some r.status)
  ]

  cancelled-Looped :
      (total : ℕ) (b : Bool) (w : Locals F M)
      → All (λ a. is_early a ≡ true) w.log
      → Looped
          (and_then (call cancel_run b w) (λ _ v. return v (some (result_of cancelled total v))))
  unfolding result_of
  cancelled-Looped total true w h = record {
    before = w.log;
    ending = _;
    parts = refl;
    early = h;
    ended = was_cancelled;
  }
  cancelled-Looped total false w h = record {
    before = w.log;
    ending = _;
    parts = refl;
    early = h;
    ended = cancelling;
  }

  run_items-Looped :
      (total idx n : ℕ) (w : Locals F M)
      → All (λ a. is_early a ≡ true) w.log
      → Looped (run_items env total idx n w)
  unfolding run_items
  run_items-Looped total idx zero w h = h
  run_items-Looped total idx (suc n) w h =
      asked (env.is_cancel_requested idx) (λ s k. run_items-Looped total (suc idx) n s k)
    where
      asked :
          (b : Bool)
          → ((s : Locals F M)
              → All (λ a. is_early a ≡ true) s.log
              → Looped (run_items env total (suc idx) n s))
          → Looped (elim b [
            | true ↦
                and_then
                  (call cancel_run env.cancels w)
                  (λ _ v. return v (some (result_of cancelled total v)))
            | false ↦ and_then (run_item env idx w) (λ _ v. run_items env total (suc idx) n v)
          ])
      asked true more = cancelled-Looped total env.cancels w h
      asked false more =
          and_then_ind Early Looped (run_item env idx w) (λ _ v. run_items env total (suc idx) n v)
            (run_item-Early idx w h) (λ s e k. early-IsScript s.log k) (λ s a k. more s k)

  abbrev Scripted : Run F M (WorkflowResult F) → Type 0
  Scripted c = IsScript c.self.log (status_of c)

  last_two :
      (total : ℕ) (a : Activity) (status : Status) (b d : Bool) (w : Locals F M)
      → Ending (finalize_run_integrity ∷ a ∷ []) none
      → Ending (finalize_run_integrity ∷ a ∷ []) (some status)
      → All (λ a. is_early a ≡ true) w.log
      → Scripted (
          and_then
            (call finalize_run_integrity b w)
            (λ _ v. and_then (call a d v) (λ _ u. return u (result_of status total u))))
  unfolding result_of
  last_two total a status false d w broken done h = record {
    before = w.log;
    ending = _;
    parts = refl;
    early = h;
    ended = finalizing;
  }
  last_two total a status true false w broken done h = record {
    before = w.log;
    ending = finalize_run_integrity ∷ a ∷ [];
    parts = append_assoc w.log (finalize_run_integrity ∷ []) (a ∷ []);
    early = h;
    ended = broken;
  }
  last_two total a status true true w broken done h = record {
    before = w.log;
    ending = finalize_run_integrity ∷ a ∷ [];
    parts = append_assoc w.log (finalize_run_integrity ∷ []) (a ∷ []);
    early = h;
    ended = done;
  }

  conclude-Scripted :
      (total : ℕ) (w : Locals F M)
      → All (λ a. is_early a ≡ true) w.log
      → Scripted (conclude env total w)
  unfolding conclude
  conclude-Scripted total w h =
      if_ind Scripted (w.items_failed == total)
        (last_two total fail_run failed env.finalizes env.fails w failing has_failed h)
        (last_two total complete_run completed env.finalizes env.completes w completing
          has_completed h)

  settled :
      (total : ℕ) (c : Run F M (Option (WorkflowResult F)))
      → Looped c
      → Scripted (and_then c (λ r u. settle env total r u))
  unfolding settle
  settled total c h =
      and_then_ind Looped Scripted c (λ r u. settle env total r u) h (λ s e k. k) split
    where
      split :
          (s : Locals F M) (r : Option (WorkflowResult F))
          → Looped (return s r)
          → Scripted (settle env total r s)
      split s none k = conclude-Scripted total s k
      split s (some r) k = k

  -- Whatever the activities do, and wherever the run breaks off: an activity that ends the run is called at
  -- most once and as the last; a run is completed or failed only directly behind the activity that
  -- finalizes its integrity; and the status that `run` returns is that of the activity that ended it.
  pub run-IsScript : (total : ℕ) → IsScript (run env total).self.log (status_of (run env total))
  unfolding run
  run-IsScript total =
      and_then_ind Early Scripted (call queue_run env.queues (begin env))
        (λ _ w.
          and_then (call (start_run total) env.starts w)
            (λ _ v. and_then (run_items env total 0 total v) (λ r u. settle env total r u)))
        (call-Early queue_run env.queues (begin env) refl tt) (λ s e k. early-IsScript s.log k)
        λ s a k.
          and_then_ind Early Scripted (call (start_run total) env.starts s)
            (λ _ v. and_then (run_items env total 0 total v) (λ r u. settle env total r u))
            (call-Early (start_run total) env.starts s refl k) (λ s e k. early-IsScript s.log k)
            λ v b l.
              settled total (run_items env total 0 total v) (run_items-Looped total 0 total v l)
