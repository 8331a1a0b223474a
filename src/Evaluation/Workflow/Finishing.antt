-- ===== src/Evaluation/Workflow/Finishing.antt =====
-- How `EvaluationRunWorkflow.run` ends, and what it counts.
use redops.Base.{
  ℕ, zero, suc, ◌+◌, ◌==◌, Bool, true, false, Option, none, some, [], ◌∷◌, ◌≡◌, refl, arith,
  if◌then◌else◌, ok, raised, is_ok, and_then_ok, and_then_at, except, Float,
}
use redops.Evaluation.Workflow.{
  ItemResult, queue_run, start_run, Environment, Locals, Status, completed, failed, WorkflowResult,
  Run, result_of, count_item, persist_item, process, count_failure, run_item, run_items, conclude,
  settle, begin, run,
}

-- The activities around the items return, and no cancellation is requested; an item may fail.
pub record IsCalm {F M : Type 0} (env : Environment F M) : Type 0 where
  pub queues : env.queues ≡ true
  pub starts : env.starts ≡ true
  pub persists : (i : ℕ) → env.persists i ≡ true
  pub reports : (i : ℕ) → env.reports i ≡ true
  pub reports_failure : (i : ℕ) → env.reports_failure i ≡ true
  pub uncancelled : (i : ℕ) → env.is_cancel_requested i ≡ false
  pub finalizes : env.finalizes ≡ true
  pub fails : env.fails ≡ true
  pub completes : env.completes ≡ true

module _ {F M : Type 0} where
  -- The item fails: it is executed with a failure, or its activity raises.
  abbrev pub fails_at : Environment F M → ℕ → Bool
  fails_at env i = elim (env.executes i) [ none ↦ true | some r ↦ r.failed ]

  -- The failures among `n` items from an index on.
  abbrev pub failures : Environment F M → ℕ → ℕ → ℕ
  failures env idx zero = 0
  failures env idx (suc n) = (if fails_at env idx then 1 else 0) + failures env (suc idx) n

  abbrev fails_as : Option (ItemResult F M) → Bool
  fails_as o = elim o [ none ↦ true | some r ↦ r.failed ]

-- A call that returns, with so many items more, and so many failures.
abbrev Counts : {F M A : Type 0} → Locals F M → ℕ → ℕ → Run F M A → Type 0
Counts w done bad c =
    (is_ok c ≡ true)
    × (c.self.items_completed ≡ w.items_completed + done)
    × (c.self.items_failed ≡ w.items_failed + bad)

-- The status of a run, by its failures.
abbrev pub status_by : ℕ → ℕ → Status
status_by bad total = if bad == total then failed else completed

-- The run returns with a status, and with these numbers of items.
abbrev pub Ended : {F M : Type 0} → ℕ → ℕ → ℕ → Run F M (WorkflowResult F) → Type 0
Ended total done bad c = elim c.result [
  | raised e ↦ ⊥
  | ok r ↦
      (r.status ≡ status_by bad total)
      × (r.items_completed ≡ done)
      × (r.items_failed ≡ bad)
      × (r.items_total ≡ total)
]

module _ {F M : Type 0} ⦃fl : Float F⦄ (env : Environment F M) (calm : IsCalm env) where
  item-Counts :
      (idx : ℕ) (o : Option (ItemResult F M)) (w : Locals F M)
      → Counts w 1
          (if fails_as o then 1 else 0)
          (except (process env idx o w) (count_failure env idx))
  unfolding process persist_item count_item count_failure
  item-Counts idx none w = ground (arith, calm.reports_failure idx)
  item-Counts idx (some r) w = ground (arith, calm.persists idx, calm.reports idx)

  next_item :
      (total idx n : ℕ) (w : Locals F M)
      → is_ok (run_item env idx w) ≡ true
      → run_items env total idx (suc n) w
        ≡ run_items env total (suc idx) n (run_item env idx w).self
  unfolding run_items
  next_item total idx n w h =
      let (a, same) =
        and_then_ok (run_item env idx w) (λ _ v. run_items env total (suc idx) n v) h in
      rw (run_items, calm.uncancelled idx) same

  run_items-Counts :
      (total idx n : ℕ) (w : Locals F M)
      → Counts w n (failures env idx n) (run_items env total idx n w)
        × ((run_items env total idx n w).result ≡ ok none)
  unfolding run_items run_item
  run_items-Counts total idx zero w = ((refl, omega arith, omega arith), refl)
  run_items-Counts total idx (suc n) w =
      let (returns, more, bad) = item-Counts idx (env.executes idx) w in
      let ((ends, others, worse), through) =
        run_items-Counts total (suc idx) n (run_item env idx w).self in
      rw (next_item total idx n w returns)
        ((ends, omega (arith, more, others), omega (arith, bad, worse)), through)

  conclude-Ended :
      (total done bad : ℕ) (w : Locals F M)
      → w.items_completed ≡ done
      → w.items_failed ≡ bad
      → Ended total done bad (conclude env total w)
  unfolding conclude result_of
  conclude-Ended total done bad w d b = ground (arith, calm.finalizes, calm.fails, calm.completes)

  -- Where the activities around the items return and no cancellation is requested: `run` returns, whatever
  -- becomes of the items. It has counted each item once, and as failed those that were executed with a
  -- failure or whose activity raised; the run has failed where as many have failed as there are items, an
  -- empty run too, and else it is completed.
  pub run-Ended : (total : ℕ) → Ended total total (failures env 0 total) (run env total)
  unfolding run settle
  run-Ended total =
      let w = record (begin env) { log = queue_run ∷ start_run total ∷ [] } in
      let ((ends, done, bad), through) = run_items-Counts total 0 total w in
      let last = run_items env total 0 total w in
      rw (calm.queues, calm.starts, and_then_at last (λ r u. settle env total r u) none through)
        (conclude-Ended total total (failures env 0 total) last.self (omega (arith, done))
          (omega (arith, bad)))

module _ {F M : Type 0} ⦃fl : Float F⦄ (env : Environment F M) where
  -- An item that was executed and stored, but whose report of the progress raises, is counted twice, and
  -- as failed once more than it has failed.
  pub run_item_repeats :
      (idx : ℕ) (r : ItemResult F M) (w : Locals F M)
      → env.executes idx ≡ some r
      → env.persists idx ≡ true
      → env.reports idx ≡ false
      → let v = (run_item env idx w).self in
        (v.items_completed ≡ w.items_completed + 2)
        × (v.items_failed ≡ w.items_failed + ((if r.failed then 1 else 0) + 1))
  unfolding run_item process persist_item count_item count_failure
  run_item_repeats idx r w e p q = ground (arith, e, p, q)
