-- ===== src/Agents/Loop/Tests.antt =====
-- The theorems on the agent's loop, its tools and its trajectory, applied to a run with one tool.
use redops.Base.{
  ℕ, zero, suc, ◌+◌, String, Bool, true, false, List, [], ◌∷◌, Option, none, some, ◌≡◌, refl,
  str_eq, if◌then◌else◌, Clock, whole, length, get,
}
use redops.Agents.Trajectory.{AgentTrajectory, all_tool_calls}
use redops.Agents.Trajectory.Metrics.{compute_trajectory_metrics}
use redops.Agents.Trajectory.Counted.{IsCounted, compute_trajectory_metrics-IsCounted}
use redops.Agents.Trajectory.Dictionary.{to_dict}
use redops.Agents.Trajectory.Dictionary.Decode.{from_dict}
use redops.Agents.Trajectory.Dictionary.RoundTrip.{forget_times, from_dict-to_dict}
use redops.Agents.Tools.{Arguments, ToolDefinition, ToolRegistry, returns, execute as execute_tool}
use redops.Agents.Recorder.{Recorder, new_recorder, build}
use redops.Agents.Loop.{
  ToolCall, ProviderMessage, Response, Reply, responds, Environment, Progress, AgentLoopResult,
  AgentLoopConfig, Turn, on, left,
}
use redops.Agents.Loop.Execute.{start, turn, execute}
use redops.Agents.Loop.Bounds.{IsSound, execute-IsSound}
use redops.Agents.Loop.Recording.{execute_calls_twice}

-- JSON values are their texts, and "oops" is none.
abbrev texts : Arguments String
texts = record {
  empty = "{}";
  is_iterable = λ _. true;
  member = λ _ _. true;
  loads = λ t. if str_eq t "oops" then none else some t;
}

abbrev search : ToolDefinition
search = record { name = "search"; required = "query" ∷ [] }

abbrev registry : ToolRegistry String
registry = record {
  tools = ("search", search) ∷ [];
  functions = ("search", "search_function") ∷ [];
}

abbrev response : String → List ToolCall → Response ℕ
response content calls = record {
  provider = "openai";
  model = "small";
  content = content;
  tool_calls = calls;
  input_tokens = 10;
  output_tokens = 4;
  cost = 2;
  finish_reason = "stop";
}

abbrev call : String → ToolCall
call arguments = record { tool_call_id = "1"; name = "search"; arguments = arguments }

-- The model asks for one search, and then answers.
abbrev provider : String → ℕ → Bool → List ProviderMessage → Reply ℕ
provider arguments zero offered ms = responds (response "" (call arguments ∷ []))
provider arguments (suc n) offered ms = responds (response "done" [])

abbrev noon : Clock
noon i = 43_200_000_000 + i

abbrev environment : String → Environment String String ℕ
environment arguments = record {
  supports_tools = true;
  supports_chat = true;
  provider = provider arguments;
  tool_outcome = λ n f args. returns "found";
  cancelled_before = λ n. false;
  cancelled_after = λ n. false;
  llm_elapsed = λ n. 250;
  tool_elapsed = λ n. 20;
  llm_clock = λ n. noon;
  tool_clock = λ n. noon;
  answer_clock = noon;
  total_elapsed = 600;
  exception_text = λ f. "failed";
}

abbrev config : AgentLoopConfig
config = record { max_steps = 5; system_prompt = "You search." }

abbrev recorder : Recorder String ℕ
recorder = new_recorder "run" "scout" "search" 43_200_000_000

abbrev ended : Option (AgentLoopResult ℕ × Option (Recorder String ℕ))
ended = execute texts (environment "{}") registry config "Find it." (some recorder)

abbrev result_of : Option (AgentLoopResult ℕ × Option (Recorder String ℕ)) → AgentLoopResult ℕ
result_of none = record {
  success = false;
  final_response = "";
  total_steps = 0;
  total_llm_calls = 0;
  total_tool_calls = 0;
  total_tokens_input = 0;
  total_tokens_output = 0;
  total_cost_usd = 0;
  total_duration_ms = 0;
  error = none;
  status = "";
}
result_of (some (r, _)) = r

abbrev recorder_of : Option (AgentLoopResult ℕ × Option (Recorder String ℕ)) → Recorder String ℕ
recorder_of (some (_, some r)) = r
recorder_of _ = recorder

ended_well :
    (ended ≡ some (result_of ended, some (recorder_of ended)))
    × ((result_of ended).success ≡ true)
    × ((result_of ended).total_tool_calls ≡ 1)
unfolding execute execute_tool get
ended_well = (refl, refl, refl)

execute_calls_twice_example :
    length (all_tool_calls (build (λ e. "entry") (λ m. "{}") "id" noon (recorder_of ended)))
    ≡ (result_of ended).total_tool_calls + (result_of ended).total_tool_calls
unfolding new_recorder
execute_calls_twice_example =
    execute_calls_twice texts (environment "{}") registry config "Find it." recorder
      (result_of ended) (recorder_of ended) (λ e. "entry") (λ m. "{}") "id" noon refl ended_well.0
      ended_well.1

execute-IsSound_example :
    (r : AgentLoopResult ℕ) × (after : Option (Recorder String ℕ)) × (ended ≡ some (r, after))
    × IsSound config r
execute-IsSound_example =
    execute-IsSound texts (environment "{}") registry config "Find it." (some recorder)

-- The head of the loop after the first turn.
abbrev second : Turn String ℕ → Progress String ℕ
second (on p) = p
second (left e p) = p

abbrev begun : Progress String ℕ
begun = start texts (environment "{}") registry config "Find it." none

abbrev turned : Turn String ℕ
turned = turn texts (environment "{}") registry begun

abbrev trajectory : AgentTrajectory String ℕ
trajectory = build (λ e. "entry") (λ m. "{}") "id" noon (recorder_of ended)

from_dict-to_dict_example :
    from_dict whole "{}" (λ i j. 0) (to_dict trajectory) ≡ some (forget_times (λ i j. 0) trajectory)
from_dict-to_dict_example = from_dict-to_dict whole "{}" (λ i j. 0) trajectory

compute_trajectory_metrics-IsCounted_example :
    IsCounted (recorder_of ended).steps (compute_trajectory_metrics (recorder_of ended).steps)
compute_trajectory_metrics-IsCounted_example =
    compute_trajectory_metrics-IsCounted (recorder_of ended).steps
