-- ===== src/Agents/Trajectory.antt =====
-- backend/app/agents/domain/trajectory.py: the record of what an agent did. A JSON value that the code
-- only passes on (arguments, metadata, an entry of the conversation) is of an abstract type `J`, a
-- float of an abstract type `F`, and a datetime is a number of microseconds.
pub mod Dictionary
pub mod Metrics
pub mod Counted
use redops.Base.{
  ℕ, ◌+◌, String, Bool, true, false, not, ◌||◌, ◌==◌, is_some, if◌then◌else◌, Option, none, some,
  List, [], ◌∷◌, ◌++◌, length, ℤ, pos, Float, filter_by,
}
use mathlib.Core.List.{reverse}

pub data TrajectoryStepType : Type 0 where
  llm_call tool_call tool_result reasoning final_answer error : TrajectoryStepType

abbrev pub step_position : TrajectoryStepType → ℕ
step_position llm_call = 0
step_position tool_call = 1
step_position tool_result = 2
step_position reasoning = 3
step_position final_answer = 4
step_position error = 5

-- `a == b` on types of steps.
abbrev pub same_type : TrajectoryStepType → TrajectoryStepType → Bool
same_type a b = step_position a == step_position b

pub data TrajectoryStatus : Type 0 where
  completed failed timeout budget_exhausted max_steps_reached cancelled : TrajectoryStatus

pub record ToolCallRecord (J : Type 0) : Type 0 where
  pub tool_call_id : String
  pub tool_name : String
  pub arguments : J
  pub result : String
  pub is_error : Bool
  pub latency_ms : ℕ
  pub started_at : ℕ
  pub completed_at : Option ℕ

pub record LlmCallRecord (J F : Type 0) : Type 0 where
  pub provider : String
  pub model : String
  pub messages_sent : ℕ
  pub response_content : String
  pub tool_calls_requested : List (ToolCallRecord J)
  pub tokens_input : ℕ
  pub tokens_output : ℕ
  pub cost_usd : F
  pub latency_ms : ℕ
  pub finish_reason : String
  pub started_at : ℕ
  pub completed_at : Option ℕ

pub record TrajectoryStep (J F : Type 0) : Type 0 where
  pub step_index : ℕ
  pub step_type : TrajectoryStepType
  pub llm : Option (LlmCallRecord J F)
  pub tool : Option (ToolCallRecord J)
  pub content : String
  pub reasoning : String
  pub error : Option String
  pub timestamp : ℕ

pub record TrajectoryMetrics (F : Type 0) : Type 0 where
  pub total_steps : ℕ
  pub llm_calls : ℕ
  pub tool_calls : ℕ
  pub tool_results : ℕ
  pub errors : ℕ
  pub total_tokens_input : ℕ
  pub total_tokens_output : ℕ
  pub total_cost_usd : F
  pub total_duration_ms : ℤ
  pub unique_tools_used : List String
  pub tool_error_rate : F
  pub average_llm_latency_ms : F
  pub average_tool_latency_ms : F

pub record AgentTrajectory (J F : Type 0) : Type 0 where
  pub trajectory_id : String
  pub run_id : String
  pub agent_name : String
  pub task_description : String
  pub status : TrajectoryStatus
  pub steps : List (TrajectoryStep J F)
  pub metrics : TrajectoryMetrics F
  pub conversation_history : List J
  pub started_at : ℕ
  pub completed_at : Option ℕ
  pub error : Option String
  pub metadata : J

-- `tool_calls_requested == ()`
abbrev no_calls : {J : Type 0} → List (ToolCallRecord J) → Bool
no_calls [] = true
no_calls (c ∷ cs) = false

abbrev pub optional : {J : Type 0} → Option (ToolCallRecord J) → List (ToolCallRecord J)
optional none = []
optional (some c) = c ∷ []

module _ {J F : Type 0} where
  -- `TrajectoryStep.is_error`
  unfoldable pub is_error_step : TrajectoryStep J F → Bool
  is_error_step s = is_some s.error || same_type s.step_type error

  -- `TrajectoryStep.tokens_used`
  unfoldable pub tokens_used : TrajectoryStep J F → ℕ
  tokens_used s = elim s.llm [ none ↦ 0 | some c ↦ c.tokens_input + c.tokens_output ]

  -- What one turn of the loop of `final_response` returns.
  unfoldable pub answer_of : TrajectoryStep J F → Option String
  answer_of s =
      if same_type s.step_type final_answer
      then some s.content
      else if same_type s.step_type llm_call
      then elim s.llm [
        | none ↦ none
        | some c ↦ if no_calls c.tool_calls_requested then some c.response_content else none
      ]
      else none

  -- The loop of `final_response` over the reversed steps.
  unfoldable pub first_answer : List (TrajectoryStep J F) → String
  unfolding answer_of
  first_answer [] = ""
  first_answer (s ∷ ss) =
      let rest = first_answer ss in elim (answer_of s) [ none ↦ rest | some text ↦ text ]

  unfoldable pub final_response : AgentTrajectory J F → String
  unfolding first_answer
  final_response t = first_answer (reverse t.steps)

  -- What a step adds to the list of `all_tool_calls`.
  abbrev pub requested : Option (LlmCallRecord J F) → List (ToolCallRecord J)
  requested none = []
  requested (some c) = c.tool_calls_requested

  unfoldable pub calls_of : TrajectoryStep J F → List (ToolCallRecord J)
  calls_of s = optional s.tool ++ requested s.llm

  unfoldable pub all_calls : List (TrajectoryStep J F) → List (ToolCallRecord J)
  unfolding calls_of
  all_calls [] = []
  all_calls (s ∷ ss) = calls_of s ++ all_calls ss

  unfoldable pub all_tool_calls : AgentTrajectory J F → List (ToolCallRecord J)
  unfolding all_calls
  all_tool_calls t = all_calls t.steps

  unfoldable pub get_steps_by_type :
      TrajectoryStepType → AgentTrajectory J F → List (TrajectoryStep J F)
  get_steps_by_type type t = filter_by (λ s. same_type s.step_type type) t.steps

  unfoldable pub duration_ms : Float F → AgentTrajectory J F → ℤ
  duration_ms fl t = elim t.completed_at [ none ↦ pos 0 | some end ↦ fl.millis end t.started_at ]
