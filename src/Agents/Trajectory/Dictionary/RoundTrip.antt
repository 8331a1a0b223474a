-- ===== src/Agents/Trajectory/Dictionary/RoundTrip.antt =====
-- `from_dict` reads back what `to_dict` has written.
use redops.Base.{ℕ, suc, String, Option, none, some, List, [], ◌∷◌, Float, ◌≡◌, refl, ap, ◌∙◌}
use redops.Agents.Trajectory.{
  TrajectoryStepType, llm_call, tool_call, tool_result, reasoning, final_answer, error,
  TrajectoryStatus, completed, failed, timeout, budget_exhausted, max_steps_reached, cancelled,
  ToolCallRecord, LlmCallRecord, TrajectoryStep, AgentTrajectory,
}
use redops.Agents.Trajectory.Dictionary.{
  Value, stamp, type_value, status_value, text, items, or_null, other, call_to_dict, llm_to_dict,
  step_to_dict, metrics_to_dict, to_dict,
}
use redops.Agents.Trajectory.Dictionary.Decode.{
  read_all, call_from_dict, llm_from_dict, step_from_dict, metrics_from_dict, from_dict, member,
  types, statuses, nullable, truthy, as_text, as_stamp, as_other,
}

-- A list of which each entry is changed by its index.
unfoldable pub map_from : {A : Type 0} → (ℕ → A → A) → ℕ → List A → List A
map_from f i [] = []
map_from f i (x ∷ xs) = f i x ∷ map_from f (suc i) xs

-- A call record as it is read back: its times are not in the dictionary.
unfoldable pub forget_call : {J : Type 0} → ℕ → ToolCallRecord J → ToolCallRecord J
forget_call now c = record c { started_at = now; completed_at = none }

map_from_same : {A : Type 0} (i : ℕ) (xs : List A) → map_from (λ _ x. x) i xs ≡ xs
unfolding map_from
map_from_same i [] = refl
map_from_same i (x ∷ xs) = rw (map_from_same (suc i) xs)

type_back : (t : TrajectoryStepType) → member type_value types (type_value t) ≡ some t
type_back llm_call = refl
type_back tool_call = refl
type_back tool_result = refl
type_back reasoning = refl
type_back final_answer = refl
type_back error = refl

status_back : (s : TrajectoryStatus) → member status_value statuses (status_value s) ≡ some s
status_back completed = refl
status_back failed = refl
status_back timeout = refl
status_back budget_exhausted = refl
status_back max_steps_reached = refl
status_back cancelled = refl

module _ {J F : Type 0} where
  unfoldable pub forget_llm : (ℕ → ℕ) → LlmCallRecord J F → LlmCallRecord J F
  unfolding forget_call map_from
  forget_llm now c = record c {
    tool_calls_requested = map_from (λ i. forget_call (now (suc (suc i)))) 0 c.tool_calls_requested;
    started_at = now 0;
    completed_at = none;
  }

  unfoldable pub forget_step : (ℕ → ℕ) → TrajectoryStep J F → TrajectoryStep J F
  unfolding forget_llm
  forget_step now s = record s {
    llm = elim s.llm [ none ↦ none | some c ↦ some (forget_llm now c) ];
    tool = elim s.tool [ none ↦ none | some c ↦ some (forget_call (now 1) c) ];
  }

  -- A trajectory whose call records have the times at which they were read back.
  unfoldable pub forget_times : (ℕ → ℕ → ℕ) → AgentTrajectory J F → AgentTrajectory J F
  unfolding forget_step map_from
  forget_times now t = record t { steps = map_from (λ i. forget_step (now i)) 0 t.steps }

  read_all-items :
      {A : Type 0} (read : ℕ → Value J F → Option A) (write : A → Value J F) (f : ℕ → A → A)
      → ((i : ℕ) (x : A) → read i (write x) ≡ some (f i x))
      → (i : ℕ) (xs : List A) → read_all read i (items write xs) ≡ some (map_from f i xs)
  unfolding read_all map_from
  read_all-items read write f h i [] = refl
  read_all-items read write f h i (x ∷ xs) =
      rw (h i x) (rw (read_all-items read write f h (suc i) xs))

  call_back :
      (fl : Float F) (empty : J) (now : ℕ) (c : ToolCallRecord J)
      → call_from_dict empty now (call_to_dict {F = F} c) ≡ some (forget_call now c)
  unfolding call_from_dict call_to_dict forget_call
  call_back fl empty now c = refl

  llm_back :
      (fl : Float F) (empty : J) (now : ℕ → ℕ) (c : LlmCallRecord J F)
      → llm_from_dict fl empty now (llm_to_dict c) ≡ some (forget_llm now c)
  unfolding llm_from_dict llm_to_dict forget_llm
  llm_back fl empty now c = rw (
      read_all-items (λ i. call_from_dict empty (now (suc (suc i)))) call_to_dict
        (λ i. forget_call (now (suc (suc i)))) (λ i x. call_back fl empty _ x) 0
        c.tool_calls_requested)

  texts_null :
      (fl : Float F) (empty : J) (o : Option String)
      → nullable {J = J} {F = F} as_text (or_null text o) ≡ some o
  unfolding nullable
  texts_null fl empty none = refl
  texts_null fl empty (some s) = refl

  stamps_null :
      (fl : Float F) (empty : J) (o : Option ℕ)
      → nullable {J = J} {F = F} as_stamp (or_null stamp o) ≡ some o
  unfolding nullable
  stamps_null fl empty none = refl
  stamps_null fl empty (some s) = refl

  llm_null :
      (fl : Float F) (empty : J) (now : ℕ → ℕ) (o : Option (LlmCallRecord J F))
      → truthy (llm_from_dict fl empty now) (or_null llm_to_dict o)
        ≡ some (elim o [ none ↦ none | some c ↦ some (forget_llm now c) ])
  unfolding truthy llm_to_dict
  llm_null fl empty now none = refl
  llm_null fl empty now (some c) = simp (llm_back fl empty now c)

  call_null :
      (fl : Float F) (empty : J) (now : ℕ) (o : Option (ToolCallRecord J))
      → truthy (call_from_dict {F = F} empty now) (or_null call_to_dict o)
        ≡ some (elim o [ none ↦ none | some c ↦ some (forget_call now c) ])
  unfolding truthy call_to_dict
  call_null fl empty now none = refl
  call_null fl empty now (some c) = simp (call_back fl empty now c)

  step_back :
      (fl : Float F) (empty : J) (now : ℕ → ℕ) (s : TrajectoryStep J F)
      → step_from_dict fl empty now (step_to_dict s) ≡ some (forget_step now s)
  unfolding step_from_dict step_to_dict forget_step
  step_back fl empty now s =
      simp (type_back, texts_null fl empty, llm_null fl empty now, call_null fl empty (now 1))

  texts_back :
      (fl : Float F) (empty : J) (i : ℕ) (xs : List String)
      → read_all {J = J} {F = F} (λ _. as_text) i (items text xs) ≡ some xs
  texts_back fl empty i xs =
      read_all-items (λ _. as_text) text (λ _ x. x) (λ _ x. refl) i xs
      ∙ ap some (map_from_same i xs)

  others_back :
      (fl : Float F) (i : ℕ) (xs : List J)
      → read_all {J = J} {F = F} (λ _. as_other) i (items other xs) ≡ some xs
  others_back fl i xs =
      read_all-items (λ _. as_other) other (λ _ x. x) (λ _ x. refl) i xs
      ∙ ap some (map_from_same i xs)

  steps_back :
      (fl : Float F) (empty : J) (now : ℕ → ℕ → ℕ) (i : ℕ) (ss : List (TrajectoryStep J F))
      → read_all (λ k. step_from_dict fl empty (now k)) i (items step_to_dict ss)
        ≡ some (map_from (λ k. forget_step (now k)) i ss)
  steps_back fl empty now = read_all-items _ step_to_dict _ (λ i. step_back fl empty (now i))

  -- `from_dict` reads back every trajectory that `to_dict` has written, but for the times of the
  -- calls: each call has started when it was read, and has not ended.
  pub from_dict-to_dict :
      (fl : Float F) (empty : J) (now : ℕ → ℕ → ℕ) (t : AgentTrajectory J F)
      → from_dict fl empty now (to_dict t) ≡ some (forget_times now t)
  unfolding from_dict to_dict forget_times metrics_from_dict metrics_to_dict
  from_dict-to_dict fl empty now t = simp (
    steps_back fl empty now,
    texts_back fl empty,
    others_back fl,
    status_back,
    texts_null fl empty,
    stamps_null fl empty,
  )
