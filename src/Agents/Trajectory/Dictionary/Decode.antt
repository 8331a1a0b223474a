-- ===== src/Agents/Trajectory/Dictionary/Decode.antt =====
-- `AgentTrajectory.from_dict`.
use redops.Base.{
  ℕ, suc, String, Bool, false, if◌then◌else◌, Option, none, some, List, [], ◌∷◌, ℤ, pos, str_eq,
  Float,
}
use redops.Agents.Trajectory.{
  TrajectoryStepType, llm_call, tool_call, tool_result, reasoning, final_answer, error,
  TrajectoryStatus, completed, failed, timeout, budget_exhausted, max_steps_reached, cancelled,
  ToolCallRecord, LlmCallRecord, TrajectoryStep, TrajectoryMetrics, AgentTrajectory,
}
use redops.Agents.Trajectory.Dictionary.{
  Value, null, text, num, flag, real, stamp, other, arr, obj, Items, nil, cons, Fields, end, field,
  type_value, status_value,
}

infixl 5 ◌>>=◌
abbrev ◌>>=◌ : {A B : Type 0} → Option A → (A → Option B) → Option B
none >>= f = none
some a >>= f = f a

-- `TrajectoryStepType(text)`, `TrajectoryStatus(text)`
abbrev pub member : {A : Type 0} → (A → String) → List A → String → Option A
member value [] s = none
member value (a ∷ more) s =
    let rest = member value more s in if str_eq (value a) s then some a else rest

abbrev pub types : List TrajectoryStepType
types = llm_call ∷ tool_call ∷ tool_result ∷ reasoning ∷ final_answer ∷ error ∷ []

abbrev pub statuses : List TrajectoryStatus
statuses = completed ∷ failed ∷ timeout ∷ budget_exhausted ∷ max_steps_reached ∷ cancelled ∷ []

module _ {J F : Type 0} where
  abbrev find : String → Fields J F → Option (Value J F)
  find k end = none
  find k (field j v rest) = if str_eq j k then some v else find k rest

  -- `s[k]`, `s.get(k, d)` and `s.get(k)` with a reader of the value.
  abbrev need : {A : Type 0} → (Value J F → Option A) → String → Fields J F → Option A
  need read k fs = find k fs >>= read

  abbrev get_or : {A : Type 0} → (Value J F → Option A) → A → String → Fields J F → Option A
  get_or read d k fs = elim (find k fs) [ none ↦ some d | some v ↦ read v ]

  -- `None` and a missing key are read as `None`.
  unfoldable pub nullable : {A : Type 0} → (Value J F → Option A) → Value J F → Option (Option A)
  nullable read null = some none
  nullable read v = read v >>= λ a. some (some a)

  abbrev get_opt : {A : Type 0} → (Value J F → Option A) → String → Fields J F → Option (Option A)
  get_opt read k fs = elim (find k fs) [ none ↦ some none | some v ↦ nullable read v ]

  -- `read(s[k]) if s.get(k) else None`
  unfoldable pub truthy : {A : Type 0} → (Value J F → Option A) → Value J F → Option (Option A)
  truthy read null = some none
  truthy read (obj end) = some none
  truthy read v = read v >>= λ a. some (some a)

  abbrev get_dict : {A : Type 0} → (Value J F → Option A) → String → Fields J F → Option (Option A)
  get_dict read k fs = elim (find k fs) [ none ↦ some none | some v ↦ truthy read v ]

  abbrev pub as_text : Value J F → Option String
  as_text (text s) = some s
  as_text _ = none

  abbrev pub as_nat : Value J F → Option ℕ
  as_nat (num (pos n)) = some n
  as_nat _ = none

  abbrev pub as_int : Value J F → Option ℤ
  as_int (num z) = some z
  as_int _ = none

  abbrev pub as_flag : Value J F → Option Bool
  as_flag (flag b) = some b
  as_flag _ = none

  abbrev pub as_real : Value J F → Option F
  as_real (real x) = some x
  as_real _ = none

  abbrev pub as_stamp : Value J F → Option ℕ
  as_stamp (stamp t) = some t
  as_stamp _ = none

  abbrev pub as_other : Value J F → Option J
  as_other (other j) = some j
  as_other _ = none

  abbrev pub as_fields : Value J F → Option (Fields J F)
  as_fields (obj fs) = some fs
  as_fields _ = none

  abbrev pub as_items : Value J F → Option (Items J F)
  as_items (arr xs) = some xs
  as_items _ = none

  -- A comprehension; `read i` reads the entry with index `i`.
  unfoldable pub read_all :
      {A : Type 0} → (ℕ → Value J F → Option A) → ℕ → Items J F → Option (List A)
  read_all read i nil = some []
  read_all read i (cons v rest) = do x ← read i v; xs ← read_all read (suc i) rest; some (x ∷ xs)

  abbrev pub as_list : {A : Type 0} → (ℕ → Value J F → Option A) → Value J F → Option (List A)
  as_list read v = as_items v >>= read_all read 0

  -- A call record, with the reading of the clock that its `started_at` takes by default.
  unfoldable pub call_from_dict : J → ℕ → Value J F → Option (ToolCallRecord J)
  call_from_dict empty now v = do
    c ← as_fields v
    id ← need as_text "tool_call_id" c
    name ← need as_text "tool_name" c
    arguments ← get_or as_other empty "arguments" c
    result ← get_or as_text "" "result" c
    is_error ← get_or as_flag false "is_error" c
    latency ← get_or as_nat 0 "latency_ms" c
    some (record {
      tool_call_id = id;
      tool_name = name;
      arguments = arguments;
      result = result;
      is_error = is_error;
      latency_ms = latency;
      started_at = now;
      completed_at = none;
    })

  unfoldable pub llm_from_dict : Float F → J → (ℕ → ℕ) → Value J F → Option (LlmCallRecord J F)
  unfolding call_from_dict read_all
  llm_from_dict fl empty now v = do
    c ← as_fields v
    provider ← need as_text "provider" c
    model ← need as_text "model" c
    sent ← get_or as_nat 0 "messages_sent" c
    content ← get_or as_text "" "response_content" c
    calls ←
        get_or (as_list (λ i. call_from_dict empty (now (suc (suc i))))) [] "tool_calls_requested" c
    tokens_in ← get_or as_nat 0 "tokens_input" c
    tokens_out ← get_or as_nat 0 "tokens_output" c
    cost ← get_or as_real fl.nought "cost_usd" c
    latency ← get_or as_nat 0 "latency_ms" c
    finish ← get_or as_text "" "finish_reason" c
    some (record {
      provider = provider;
      model = model;
      messages_sent = sent;
      response_content = content;
      tool_calls_requested = calls;
      tokens_input = tokens_in;
      tokens_output = tokens_out;
      cost_usd = cost;
      latency_ms = latency;
      finish_reason = finish;
      started_at = now 0;
      completed_at = none;
    })

  unfoldable pub step_from_dict : Float F → J → (ℕ → ℕ) → Value J F → Option (TrajectoryStep J F)
  unfolding llm_from_dict nullable truthy
  step_from_dict fl empty now v = do
    s ← as_fields v
    index ← need as_nat "step_index" s
    type_text ← need as_text "step_type" s
    type ← member type_value types type_text
    content ← get_or as_text "" "content" s
    thought ← get_or as_text "" "reasoning" s
    failure ← get_opt as_text "error" s
    timestamp ← need as_stamp "timestamp" s
    llm ← get_dict (llm_from_dict fl empty now) "llm_call" s
    tool ← get_dict (call_from_dict empty (now 1)) "tool_call" s
    some (record {
      step_index = index;
      step_type = type;
      llm = llm;
      tool = tool;
      content = content;
      reasoning = thought;
      error = failure;
      timestamp = timestamp;
    })

  unfoldable pub metrics_from_dict : Float F → Fields J F → Option (TrajectoryMetrics F)
  unfolding read_all
  metrics_from_dict fl m = do
    steps ← get_or as_nat 0 "total_steps" m
    llm ← get_or as_nat 0 "llm_calls" m
    tool ← get_or as_nat 0 "tool_calls" m
    results ← get_or as_nat 0 "tool_results" m
    errors ← get_or as_nat 0 "errors" m
    tokens_in ← get_or as_nat 0 "total_tokens_input" m
    tokens_out ← get_or as_nat 0 "total_tokens_output" m
    cost ← get_or as_real fl.nought "total_cost_usd" m
    duration ← get_or as_int (pos 0) "total_duration_ms" m
    tools ← get_or (as_list (λ i. as_text)) [] "unique_tools_used" m
    rate ← get_or as_real fl.nought "tool_error_rate" m
    average_llm ← get_or as_real fl.nought "average_llm_latency_ms" m
    average_tool ← get_or as_real fl.nought "average_tool_latency_ms" m
    some (record {
      total_steps = steps;
      llm_calls = llm;
      tool_calls = tool;
      tool_results = results;
      errors = errors;
      total_tokens_input = tokens_in;
      total_tokens_output = tokens_out;
      total_cost_usd = cost;
      total_duration_ms = duration;
      unique_tools_used = tools;
      tool_error_rate = rate;
      average_llm_latency_ms = average_llm;
      average_tool_latency_ms = average_tool;
    })

  -- `now i j` is what the clock reads where the call record with number `j` of step `i` is made: 0 is
  -- the step's `llm_call`, 1 its `tool_call`, and the requested calls follow.
  unfoldable pub from_dict : Float F → J → (ℕ → ℕ → ℕ) → Value J F → Option (AgentTrajectory J F)
  unfolding step_from_dict metrics_from_dict read_all nullable
  from_dict fl empty now v = do
    d ← as_fields v
    steps ← get_or (as_list (λ i. step_from_dict fl empty (now i))) [] "steps" d
    metrics_fields ← get_or as_fields end "metrics" d
    metrics ← metrics_from_dict fl metrics_fields
    trajectory_id ← need as_text "trajectory_id" d
    run_id ← need as_text "run_id" d
    agent_name ← get_or as_text "" "agent_name" d
    description ← get_or as_text "" "task_description" d
    status_text ← get_or as_text "completed" "status" d
    status ← member status_value statuses status_text
    history ← get_or (as_list (λ i. as_other)) [] "conversation_history" d
    started ← need as_stamp "started_at" d
    finished ← get_opt as_stamp "completed_at" d
    failure ← get_opt as_text "error" d
    metadata ← get_or as_other empty "metadata" d
    some (record {
      trajectory_id = trajectory_id;
      run_id = run_id;
      agent_name = agent_name;
      task_description = description;
      status = status;
      steps = steps;
      metrics = metrics;
      conversation_history = history;
      started_at = started;
      completed_at = finished;
      error = failure;
      metadata = metadata;
    })
