-- ===== src/Agents/Loop.antt =====
-- backend/app/agents/runtime/agent_loop.py, `AgentLoop.execute`: messages go to the provider, its tool
-- calls are executed, and their results go back, until it answers without a call.
pub mod Steps
pub mod Execute
pub mod Rule
pub mod Bounds
pub mod Protocol
pub mod Recorded
pub mod Recording
mod Tests
use redops.Base.{
  ℕ, zero, suc, ◌+◌, String, Bool, true, false, not, ◌&&◌, ltb, if◌then◌else◌, Option, none, some,
  List, [], ◌∷◌, ◌++◌, length, is_empty, Clock, Float, Result, ok, raised, map,
}
use redops.Agents.Trajectory.{
  TrajectoryStatus, max_steps_reached, cancelled, ToolCallRecord, LlmCallRecord,
}
use redops.Agents.Tools.{
  Arguments, ToolRegistry, ToolError, ToolExecutionResult, Outcome, TypeError, is_success,
  execute as execute_tool,
}
use redops.Agents.Recorder.{
  Recorder, record_llm_call, record_tool_call, record_final_answer, set_status, set_error,
}

-- A tool call of a response.
pub record ToolCall : Type 0 where
  pub tool_call_id : String
  pub name : String
  pub arguments : String

-- The content of a tool's message: the result, or `f"Error: {error}"`.
pub data Content : Type 0 where
  result_text : String → Content
  error_text : Option ToolError → Content

-- The dictionaries in `messages`.
pub data Message : Type 0 where
  system user : String → Message
  assistant : String → List ToolCall → Message
  tool : String → Content → Message

pub data MessageRole : Type 0 where
  system_role user_role assistant_role tool_role : MessageRole

-- The contents of the provider's messages that the agents use: a text, or a block of a tool's call or
-- of its result.
pub data MessageContent : Type 0 where
  text_content : String → MessageContent
  tool_call_content : ToolCall → MessageContent
  tool_result_content : String → Content → MessageContent

-- `Message` of the providers.
pub record ProviderMessage : Type 0 where
  pub role : MessageRole
  pub content : MessageContent

-- `_dict_to_message`; the tool calls of an assistant's dictionary are not read.
unfoldable pub dict_to_message : Message → ProviderMessage
dict_to_message (system t) = record { role = system_role; content = text_content t }
dict_to_message (user t) = record { role = user_role; content = text_content t }
dict_to_message (assistant t tcs) = record { role = assistant_role; content = text_content t }
dict_to_message (tool id c) = record { role = tool_role; content = tool_result_content id c }

pub record Response (F : Type 0) : Type 0 where
  pub provider : String
  pub model : String
  pub content : String
  pub tool_calls : List ToolCall
  pub input_tokens : ℕ
  pub output_tokens : ℕ
  pub cost : F
  pub finish_reason : String

-- What a call of the provider does.
pub data Reply (F : Type 0) : Type 0 where
  responds : Response F → Reply F
  raises : String → Reply F

-- The exceptions that reach the loop's handler.
pub data Failure : Type 0 where
  no_chat json_error bad_arguments : Failure
  provider_error : String → Failure

-- What the loop calls, by the number of the LLM call or of the tool call so far: the provider, with
-- whether tools are offered to it; the tools' functions; whether the cancel event is set; and times.
pub record Environment (T J F : Type 0) : Type 0 where
  pub supports_tools : Bool
  pub supports_chat : Bool
  pub provider : ℕ → Bool → List ProviderMessage → Reply F
  pub tool_outcome : ℕ → T → J → Outcome
  pub cancelled_before : ℕ → Bool
  pub cancelled_after : ℕ → Bool
  pub llm_elapsed : ℕ → ℕ
  pub tool_elapsed : ℕ → ℕ
  pub llm_clock : ℕ → Clock
  pub tool_clock : ℕ → Clock
  pub answer_clock : Clock
  pub total_elapsed : ℕ
  pub exception_text : Failure → String

-- The variables of the loop.
pub record Progress (J F : Type 0) : Type 0 where
  pub messages : List Message
  pub tokens_input : ℕ
  pub tokens_output : ℕ
  pub cost : F
  pub step_count : ℕ
  pub llm_call_count : ℕ
  pub tool_call_count : ℕ
  pub recorder : Option (Recorder J F)

-- How the loop is left: by an answer, by a cancellation, at its test, or by an exception.
pub data Ending : Type 0 where
  answered : String → Ending
  was_cancelled : Ending
  out_of_steps : Ending
  failed_with : Failure → Ending

-- The texts of `AgentLoopResult.error`.
pub data LoopError : Type 0 where
  run_cancelled max_steps_without_answer : LoopError
  exception : Failure → LoopError

pub record AgentLoopResult (F : Type 0) : Type 0 where
  pub success : Bool
  pub final_response : String
  pub total_steps : ℕ
  pub total_llm_calls : ℕ
  pub total_tool_calls : ℕ
  pub total_tokens_input : ℕ
  pub total_tokens_output : ℕ
  pub total_cost_usd : F
  pub total_duration_ms : ℕ
  pub error : Option LoopError
  pub status : String

-- A turn, or a part of it: the loop goes on, or is left.
pub data Turn (J F : Type 0) : Type 0 where
  on : Progress J F → Turn J F
  left : Ending → Progress J F → Turn J F

-- What the loop reads of `AgentLoopConfig`.
pub record AgentLoopConfig : Type 0 where
  pub max_steps : ℕ
  pub system_prompt : String
