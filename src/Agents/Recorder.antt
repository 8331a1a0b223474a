-- ===== src/Agents/Recorder.antt =====
-- backend/app/agents/runtime/trajectory_recorder.py. `now i` is the reading of the clock with index `i`
-- within a call: a record that is given its `completed_at` takes its `started_at` by default after it.
use redops.Base.{ℕ, ◌+◌, String, Option, none, some, List, [], ◌∷◌, ◌++◌, Clock, Float, put, map}
use redops.Agents.Trajectory.{
  TrajectoryStepType, llm_call, tool_call, reasoning, final_answer, error, TrajectoryStatus,
  completed, failed, ToolCallRecord, LlmCallRecord, TrajectoryStep, AgentTrajectory,
}
use redops.Agents.Trajectory.Metrics.{compute_trajectory_metrics}

-- The dictionaries that are appended to the conversation.
pub data Entry (J : Type 0) : Type 0 where
  assistant_calls : String → List (String × String × J) → Entry J
  tool_entry : String → String → Entry J
  assistant : String → Entry J

pub record Recorder (J F : Type 0) : Type 0 where
  pub run_id : String
  pub agent_name : String
  pub task_description : String
  pub steps : List (TrajectoryStep J F)
  pub conversation_history : List (Entry J)
  pub status : TrajectoryStatus
  pub error : Option String
  pub started_at : ℕ
  pub completed_at : Option ℕ
  pub metadata : List (String × J)
  pub step_counter : ℕ

module _ {J F : Type 0} where
  -- `__init__`
  unfoldable pub new_recorder : String → String → String → ℕ → Recorder J F
  new_recorder run_id agent_name description now = record {
    run_id = run_id;
    agent_name = agent_name;
    task_description = description;
    steps = [];
    conversation_history = [];
    status = completed;
    error = none;
    started_at = now;
    completed_at = none;
    metadata = [];
    step_counter = 0;
  }

  -- `self._steps.append(step)`, `self._step_counter += 1`
  abbrev pub push : TrajectoryStep J F → Recorder J F → Recorder J F
  push s r = record r { steps = r.steps ++ (s ∷ []); step_counter = r.step_counter + 1 }

  abbrev pub say : Entry J → Recorder J F → Recorder J F
  say e r = record r { conversation_history = r.conversation_history ++ (e ∷ []) }

  -- A step without calls, error or reasoning.
  abbrev plain : TrajectoryStepType → String → ℕ → ℕ → TrajectoryStep J F
  plain type content now index = record {
    step_index = index;
    step_type = type;
    llm = none;
    tool = none;
    content = content;
    reasoning = "";
    error = none;
    timestamp = now;
  }

  -- The arguments of `record_llm_call` are the fields of the call; its times are set here.
  unfoldable pub record_llm_call : LlmCallRecord J F → String → Clock → Recorder J F → Recorder J F
  record_llm_call c thought now r =
      let call = record c { started_at = now 1; completed_at = some (now 0) } in
      say
        (assistant_calls c.response_content
          (map (λ tc. (tc.tool_call_id, tc.tool_name, tc.arguments)) c.tool_calls_requested))
        (push
          (record (plain llm_call c.response_content (now 2) r.step_counter) {
            llm = some call;
            reasoning = thought;
          })
          r)

  unfoldable pub record_tool_call : ToolCallRecord J → Clock → Recorder J F → Recorder J F
  record_tool_call c now r =
      let call = record c { started_at = now 1; completed_at = some (now 0) } in
      say (tool_entry c.tool_call_id c.result)
        (push (record (plain tool_call c.result (now 2) r.step_counter) { tool = some call }) r)

  -- `record_tool_result`: `arguments={}`
  unfoldable pub record_tool_result : J → ToolCallRecord J → Clock → Recorder J F → Recorder J F
  unfolding record_tool_call
  record_tool_result empty c now r = record_tool_call (record c { arguments = empty }) now r

  unfoldable pub record_reasoning : String → String → Clock → Recorder J F → Recorder J F
  record_reasoning content thought now r =
      push (record (plain reasoning content (now 0) r.step_counter) { reasoning = thought }) r

  unfoldable pub record_final_answer : String → Clock → Recorder J F → Recorder J F
  record_final_answer content now r =
      say (assistant content) (push (plain final_answer content (now 0) r.step_counter) r)

  unfoldable pub record_error : String → Clock → Recorder J F → Recorder J F
  record_error message now r =
      push (record (plain error "" (now 0) r.step_counter) { error = some message }) r

  unfoldable pub set_status : TrajectoryStatus → Recorder J F → Recorder J F
  set_status s r = record r { status = s }

  unfoldable pub set_error : String → Recorder J F → Recorder J F
  set_error message r = record r { error = some message; status = failed }

  unfoldable pub set_metadata : String → J → Recorder J F → Recorder J F
  set_metadata k v r = record r { metadata = put k v r.metadata }

  -- `entry` and `object` are the JSON values of an entry and of a dictionary, `id` is a new UUID.
  unfoldable pub build :
      ⦃fl : Float F⦄
      → (entry : Entry J → J) → (object : List (String × J) → J) → (id : String) → Clock
      → Recorder J F
      → AgentTrajectory J F
  build entry object id now r = record {
    trajectory_id = id;
    run_id = r.run_id;
    agent_name = r.agent_name;
    task_description = r.task_description;
    status = r.status;
    steps = r.steps;
    metrics = compute_trajectory_metrics r.steps;
    conversation_history = map entry r.conversation_history;
    started_at = r.started_at;
    completed_at = some (now 0);
    error = r.error;
    metadata = object r.metadata;
  }
