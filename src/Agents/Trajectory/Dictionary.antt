-- ===== src/Agents/Trajectory/Dictionary.antt =====
-- `AgentTrajectory.to_dict` and `AgentTrajectory.from_dict`. The text of a datetime that `isoformat`
-- writes and `fromisoformat` reads back is kept as the datetime. `none` stands for an exception: a
-- missing key, an unknown member of an enum, or a value of another type than `to_dict` writes.
pub mod Decode
pub mod RoundTrip
use redops.Base.{
  ℕ, String, Bool, true, false, if◌then◌else◌, Option, none, some, List, [], ◌∷◌, ℤ, pos, negsuc,
  str_eq, map,
}
use redops.Agents.Trajectory.{
  TrajectoryStepType, llm_call, tool_call, tool_result, reasoning, final_answer, error,
  TrajectoryStatus, completed, failed, timeout, budget_exhausted, max_steps_reached, cancelled,
  ToolCallRecord, LlmCallRecord, TrajectoryStep, TrajectoryMetrics, AgentTrajectory,
}

mutual
  pub data Value (J F : Type 0) : Type 0 where
    null : Value J F
    text : String → Value J F
    num : ℤ → Value J F
    flag : Bool → Value J F
    real : F → Value J F
    stamp : ℕ → Value J F
    other : J → Value J F
    arr : Items J F → Value J F
    obj : Fields J F → Value J F

  pub data Items (J F : Type 0) : Type 0 where
    nil : Items J F
    cons : Value J F → Items J F → Items J F

  pub data Fields (J F : Type 0) : Type 0 where
    end : Fields J F
    field : String → Value J F → Fields J F → Fields J F

-- `TrajectoryStepType.value`
abbrev pub type_value : TrajectoryStepType → String
type_value llm_call = "llm_call"
type_value tool_call = "tool_call"
type_value tool_result = "tool_result"
type_value reasoning = "reasoning"
type_value final_answer = "final_answer"
type_value error = "error"

-- `TrajectoryStatus.value`
abbrev pub status_value : TrajectoryStatus → String
status_value completed = "completed"
status_value failed = "failed"
status_value timeout = "timeout"
status_value budget_exhausted = "budget_exhausted"
status_value max_steps_reached = "max_steps_reached"
status_value cancelled = "cancelled"

module _ {J F : Type 0} where
  -- A `dict` display.
  abbrev pub fields : List (String × Value J F) → Fields J F
  fields [] = end
  fields ((k, v) ∷ rest) = field k v (fields rest)

  abbrev pub items : {A : Type 0} → (A → Value J F) → List A → Items J F
  items f [] = nil
  items f (x ∷ xs) = cons (f x) (items f xs)

  abbrev pub or_null : {A : Type 0} → (A → Value J F) → Option A → Value J F
  or_null f none = null
  or_null f (some x) = f x

  -- The entries of `tool_calls_requested`, and `tool_call`.
  unfoldable pub call_to_dict : ToolCallRecord J → Value J F
  call_to_dict c = obj (
      fields (
        ("tool_call_id", text c.tool_call_id)
        ∷ ("tool_name", text c.tool_name)
        ∷ ("arguments", other c.arguments)
        ∷ ("result", text c.result)
        ∷ ("is_error", flag c.is_error)
        ∷ ("latency_ms", num (pos c.latency_ms))
        ∷ []))

  unfoldable pub llm_to_dict : LlmCallRecord J F → Value J F
  unfolding call_to_dict
  llm_to_dict c = obj (
      fields (
        ("provider", text c.provider)
        ∷ ("model", text c.model)
        ∷ ("messages_sent", num (pos c.messages_sent))
        ∷ ("response_content", text c.response_content)
        ∷ ("tokens_input", num (pos c.tokens_input))
        ∷ ("tokens_output", num (pos c.tokens_output))
        ∷ ("cost_usd", real c.cost_usd)
        ∷ ("latency_ms", num (pos c.latency_ms))
        ∷ ("finish_reason", text c.finish_reason)
        ∷ ("tool_calls_requested", arr (items call_to_dict c.tool_calls_requested))
        ∷ []))

  unfoldable pub step_to_dict : TrajectoryStep J F → Value J F
  unfolding llm_to_dict
  step_to_dict s = obj (
      fields (
        ("step_index", num (pos s.step_index))
        ∷ ("step_type", text (type_value s.step_type))
        ∷ ("content", text s.content)
        ∷ ("reasoning", text s.reasoning)
        ∷ ("error", or_null text s.error)
        ∷ ("timestamp", stamp s.timestamp)
        ∷ ("llm_call", or_null llm_to_dict s.llm)
        ∷ ("tool_call", or_null call_to_dict s.tool)
        ∷ []))

  unfoldable pub metrics_to_dict : TrajectoryMetrics F → Value J F
  metrics_to_dict m = obj (
      fields (
        ("total_steps", num (pos m.total_steps))
        ∷ ("llm_calls", num (pos m.llm_calls))
        ∷ ("tool_calls", num (pos m.tool_calls))
        ∷ ("tool_results", num (pos m.tool_results))
        ∷ ("errors", num (pos m.errors))
        ∷ ("total_tokens_input", num (pos m.total_tokens_input))
        ∷ ("total_tokens_output", num (pos m.total_tokens_output))
        ∷ ("total_cost_usd", real m.total_cost_usd)
        ∷ ("total_duration_ms", num m.total_duration_ms)
        ∷ ("unique_tools_used", arr (items text m.unique_tools_used))
        ∷ ("tool_error_rate", real m.tool_error_rate)
        ∷ ("average_llm_latency_ms", real m.average_llm_latency_ms)
        ∷ ("average_tool_latency_ms", real m.average_tool_latency_ms)
        ∷ []))

  unfoldable pub to_dict : AgentTrajectory J F → Value J F
  unfolding step_to_dict metrics_to_dict
  to_dict t = obj (
      fields (
        ("trajectory_id", text t.trajectory_id)
        ∷ ("run_id", text t.run_id)
        ∷ ("agent_name", text t.agent_name)
        ∷ ("task_description", text t.task_description)
        ∷ ("status", text (status_value t.status))
        ∷ ("started_at", stamp t.started_at)
        ∷ ("completed_at", or_null stamp t.completed_at)
        ∷ ("error", or_null text t.error)
        ∷ ("metadata", other t.metadata)
        ∷ ("conversation_history", arr (items other t.conversation_history))
        ∷ ("steps", arr (items step_to_dict t.steps))
        ∷ ("metrics", metrics_to_dict t.metrics)
        ∷ []))
