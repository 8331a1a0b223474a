-- ===== src/Evaluation/Orchestration/Chain.antt =====
-- What the plans of `EvaluationPlanner` look like.
use mathlib.Core.Path.{subst}
use redops.Base.{
  ℕ, zero, suc, String, Option, none, some, List, [], ◌∷◌, length, get, get_elem?, Result, ok,
  raised, ◌≡◌, refl, arith, ap,
}
use redops.Evaluation.Orchestration.{provider_invocation, ExecutionStep, ExecutionPlan, Texts}
use redops.Evaluation.Orchestration.Planner.{
  Config, DatasetItem, DatasetReference, Loaded, items_of, key_error, breaks, or_empty, read, Store,
  after, item_metadata, resolve_dataset_items, resolve_row_count, build_from, build_steps,
  determine_stages, plan_of, plan, validate_plan,
}

-- The items that a store gives for a reference: none where there is no store, no reference, or no such
-- dataset.
pub data Loads : Store → Option DatasetReference → List DatasetItem → Type 0 where
  no_store : {r : Option DatasetReference} → Loads none r []
  no_reference : {load : String → Loaded} → Loads (some load) none []
  not_found :
      {load : String → Loaded} {d : DatasetReference}
      → load d.dataset_id ≡ key_error
      → Loads (some load) (some d) []
  found :
      {load : String → Loaded} {d : DatasetReference} {items : List DatasetItem}
      → load d.dataset_id ≡ items_of items
      → Loads (some load) (some d) items

-- How many steps a plan has: as many as there are items, and where there are none as many as the
-- reference has rows, or one where there is no reference.
pub data Counts : Option DatasetReference → List DatasetItem → ℕ → Type 0 where
  of_items :
      {r : Option DatasetReference} {i : DatasetItem} {items : List DatasetItem}
      → Counts r (i ∷ items) (length (i ∷ items))
  of_rows : {d : DatasetReference} → Counts (some d) [] d.row_count
  of_prompt : Counts none [] 1

-- The texts of a step for an item.
abbrev pub Carries : Option DatasetItem → Texts → Type 0
Carries none texts = texts ≡ []
Carries (some i) texts =
    (get "prompt" texts ≡ some i.prompt)
    × (get "reference" texts ≡ some (or_empty i.reference))
    × (get "context" texts ≡ some (or_empty i.context))
    × (get "item_id" texts ≡ some (or_empty i.id))

-- The steps from an index on: each invokes the provider for the item with its index, carries that item's
-- texts, and depends on the step before it and on no other.
abbrev pub IsChain : List DatasetItem → ℕ → Option ℕ → List ExecutionStep → Type 0
IsChain items idx prev [] = Unit
IsChain items idx prev (s ∷ ss) =
    (s.stage_type ≡ provider_invocation)
    × (s.item_index ≡ idx)
    × (s.dependencies ≡ after prev)
    × Carries (get_elem? items idx) s.metadata
    × IsChain items (suc idx) (some s.step_id) ss

-- A plan for the items that the store gives.
pub record IsPlan (store : Store) (c : Config) (p : ExecutionPlan) : Type 0 where
  pub items : List DatasetItem
  pub loaded : Loads store c.reference items
  pub chain : IsChain items 0 none p.steps
  pub steps : length p.steps ≡ p.total_items
  pub total : Counts c.reference items p.total_items
  pub valid : validate_plan p ≡ []

read-Loads :
    (load : String → Loaded) (d : DatasetReference) (items : List DatasetItem) (o : Loaded)
    → load d.dataset_id ≡ o
    → read o ≡ ok items
    → Loads (some load) (some d) items
unfolding read
read-Loads load d items (items_of xs) e h =
    subst (Loads (some load) (some d)) (ground (arith, h)) (found e)
read-Loads load d items key_error e h =
    subst (Loads (some load) (some d)) (ground (arith, h)) (not_found e)
read-Loads load d items (breaks text) e h = absurd (ground (arith, h))

looked_up-Loads :
    (load : String → Loaded) (r : Option DatasetReference) (items : List DatasetItem)
    → elim r [ none ↦ ok [] | some d ↦ read (load d.dataset_id) ] ≡ ok items
    → Loads (some load) r items
looked_up-Loads load none items h = subst (Loads (some load) none) (ground (arith, h)) no_reference
looked_up-Loads load (some d) items h = read-Loads load d items (load d.dataset_id) refl h

resolve_dataset_items-Loads :
    (store : Store) (c : Config) (items : List DatasetItem)
    → resolve_dataset_items store c ≡ ok items
    → Loads store c.reference items
unfolding resolve_dataset_items
resolve_dataset_items-Loads none c items h =
    subst (Loads none c.reference) (ground (arith, h)) no_store
resolve_dataset_items-Loads (some load) c items h = looked_up-Loads load c.reference items h

rows-Counts :
    (r : Option DatasetReference) → Counts r [] (elim r [ none ↦ 1 | some d ↦ d.row_count ])
rows-Counts none = of_prompt
rows-Counts (some d) = of_rows

resolve_row_count-Counts :
    (c : Config) (items : List DatasetItem) → Counts c.reference items (resolve_row_count c items)
unfolding resolve_row_count
resolve_row_count-Counts c [] = rows-Counts c.reference
resolve_row_count-Counts c (i ∷ items) = of_items

item_metadata-Carries : (i : Option DatasetItem) → Carries i (item_metadata i)
unfolding item_metadata get
item_metadata-Carries none = refl
item_metadata-Carries (some i) = (refl, refl, refl, refl)

module _ (fresh : ℕ → ℕ) (c : Config) (items : List DatasetItem) where
  build_from-IsChain :
      (idx n : ℕ) (prev : Option ℕ) → IsChain items idx prev (build_from fresh c items idx n prev)
  unfolding build_from
  build_from-IsChain idx zero prev = tt
  build_from-IsChain idx (suc n) prev = (
    refl,
    refl,
    refl,
    item_metadata-Carries (get_elem? items idx),
    build_from-IsChain (suc idx) n (some (fresh idx)),
  )

  length-build_from :
      (idx n : ℕ) (prev : Option ℕ) → length (build_from fresh c items idx n prev) ≡ n
  unfolding build_from
  length-build_from idx zero prev = refl
  length-build_from idx (suc n) prev = ap suc (length-build_from (suc idx) n (some (fresh idx)))

  stages_some :
      (p : ExecutionPlan)
      → p.stages ≡ determine_stages c
      → length p.steps ≡ p.total_items
      → validate_plan p ≡ []
  unfolding determine_stages validate_plan
  stages_some p h k = ground arith

  pub plan_of-IsPlan :
      (store : Store) (run_id : ℕ)
      → resolve_dataset_items store c ≡ ok items
      → IsPlan store c (plan_of fresh c items run_id)
  unfolding plan_of build_steps
  plan_of-IsPlan store run_id h = record {
    items = items;
    loaded = resolve_dataset_items-Loads store c items h;
    chain = build_from-IsChain 0 (resolve_row_count c items) none;
    steps = length-build_from 0 (resolve_row_count c items) none;
    total = resolve_row_count-Counts c items;
    valid = stages_some _ refl (length-build_from 0 (resolve_row_count c items) none);
  }

module _ (store : Store) (fresh : ℕ → ℕ) (c : Config) (run_id : ℕ) where
  planned :
      (o : Result String (List DatasetItem)) (p : ExecutionPlan)
      → resolve_dataset_items store c ≡ o
      → plan store fresh c run_id ≡ ok p
      → (items : List DatasetItem) × (resolve_dataset_items store c ≡ ok items)
        × (plan_of fresh c items run_id ≡ p)
  unfolding plan
  planned (raised text) p e h = absurd (ground (arith, e))
  planned (ok items) p e h = (items, e, ground (arith, e))

  -- What `plan` returns is made from the items of the store.
  pub plan_returned :
      (p : ExecutionPlan)
      → plan store fresh c run_id ≡ ok p
      → (items : List DatasetItem) × (resolve_dataset_items store c ≡ ok items)
        × (plan_of fresh c items run_id ≡ p)
  plan_returned p h = planned (resolve_dataset_items store c) p refl h

  -- What `plan` returns is a chain of steps, each of which invokes the provider for the item with its
  -- index, carries that item's texts, and depends on the step before it. There is one step for each item
  -- that the store gives for the reference; where it gives none, one for each row of the reference, or
  -- a single one where there is no reference. The plan passes `validate_plan`.
  pub plan-IsPlan : (p : ExecutionPlan) → plan store fresh c run_id ≡ ok p → IsPlan store c p
  plan-IsPlan p h =
      let (items, e, same) = plan_returned p h in
      subst (IsPlan store c) same (plan_of-IsPlan fresh c items store run_id e)
