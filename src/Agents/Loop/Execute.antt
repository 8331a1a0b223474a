-- ===== src/Agents/Loop/Execute.antt =====
-- agent_loop.py: a turn of the loop, the loop, and `AgentLoop.execute`.
use redops.Base.{
  ℕ, zero, suc, String, Bool, true, false, ◌&&◌, ◌||◌, ltb, if◌then◌else◌, Option, none, some, List,
  [], ◌∷◌, ◌++◌, length, map, is_empty, Float,
}
use redops.Agents.Trajectory.{max_steps_reached, cancelled}
use redops.Agents.Tools.{Arguments, ToolRegistry}
use redops.Agents.Recorder.{Recorder, record_final_answer, set_status, set_error}
use redops.Agents.Loop.{
  ToolCall, system, user, assistant, Response, Reply, responds, raises, no_chat, json_error,
  provider_error, Environment, Progress, Ending, answered, was_cancelled, out_of_steps, failed_with,
  LoopError, run_cancelled, max_steps_without_answer, exception, AgentLoopResult, Turn, on, left,
  AgentLoopConfig, dict_to_message,
}
use redops.Agents.Loop.Steps.{note_response, observe, counted, run_tools}

module _ {T J F : Type 0} ⦃fl : Float F⦄ (js : Arguments J) (env : Environment T J F)
    (registry : ToolRegistry T) where
  -- `has_tools`
  unfoldable pub has_tools : Bool
  has_tools = ltb 0 (length registry.tools) && env.supports_tools

  -- `if not has_tool_calls: … return`, and else the tools.
  unfoldable pub follow : Response F → List ToolCall → Progress J F → Turn J F
  unfolding run_tools
  follow r [] p =
      left (answered r.content) (observe (record_final_answer r.content env.answer_clock) p)
  follow r (tc ∷ tcs) p =
      run_tools js env registry (tc ∷ tcs)
        (record p { messages = p.messages ++ (assistant r.content (tc ∷ tcs) ∷ []) })

  -- After the counters, with what recording the response gives.
  unfoldable pub noted : Response F → Progress J F → Option (Option (Recorder J F)) → Turn J F
  unfolding follow
  noted r p none = left (failed_with json_error) p
  noted r p (some recorder) = follow r r.tool_calls (record p { recorder = recorder })

  unfoldable pub receive : Progress J F → Reply F → Turn J F
  unfolding noted note_response
  receive p (raises text) = left (failed_with (provider_error text)) p
  receive p (responds r) =
      noted r (counted r p) (note_response js env p.llm_call_count (length p.messages) r p.recorder)

  -- The call of the provider.
  unfoldable pub ask : Progress J F → Turn J F
  unfolding receive has_tools
  ask p =
      if has_tools || env.supports_chat
      then receive p (env.provider p.llm_call_count has_tools (map dict_to_message p.messages))
      else left (failed_with no_chat) p

  -- The body of the `while` loop.
  unfoldable pub turn : Progress J F → Turn J F
  unfolding ask
  turn p = if env.cancelled_before p.llm_call_count then left was_cancelled p else ask p

  abbrev pub proceed :
      (Progress J F → Option (Ending × Progress J F)) → Turn J F → Option (Ending × Progress J F)
  proceed again (on p) = again p
  proceed again (left e p) = some (e, p)

  -- `while step_count < max_steps`; `none` means that the fuel ran out.
  unfoldable pub loop : ℕ → ℕ → Progress J F → Option (Ending × Progress J F)
  unfolding turn
  loop zero max_steps p = if ltb p.step_count max_steps then none else some (out_of_steps, p)
  loop (suc fuel) max_steps p =
      let rest = proceed (loop fuel max_steps) (turn p) in
      if ltb p.step_count max_steps then rest else some (out_of_steps, p)

  -- What the branch of an ending tells the recorder.
  unfoldable pub tell : Ending → Progress J F → Progress J F
  tell (answered text) p = p
  tell was_cancelled p = observe (set_status cancelled) p
  tell out_of_steps p = observe (set_status max_steps_reached) p
  tell (failed_with f) p = observe (set_error (env.exception_text f)) p

  abbrev pub result : Bool → String → Option LoopError → String → Progress J F → AgentLoopResult F
  result success response error status p = record {
    success = success;
    final_response = response;
    total_steps = p.step_count;
    total_llm_calls = p.llm_call_count;
    total_tool_calls = p.tool_call_count;
    total_tokens_input = p.tokens_input;
    total_tokens_output = p.tokens_output;
    total_cost_usd = p.cost;
    total_duration_ms = env.total_elapsed;
    error = error;
    status = status;
  }

  unfoldable pub finish : Ending → Progress J F → AgentLoopResult F
  finish (answered text) = result true text none "completed"
  finish was_cancelled = result false "" (some run_cancelled) "cancelled"
  finish out_of_steps = result false "" (some max_steps_without_answer) "max_steps_reached"
  finish (failed_with f) = result false "" (some (exception f)) "failed"

  abbrev pub start : AgentLoopConfig → String → Option (Recorder J F) → Progress J F
  start config text recorder = record {
    messages =
        (if is_empty config.system_prompt then [] else system config.system_prompt ∷ [])
        ++ (user text ∷ []);
    tokens_input = 0;
    tokens_output = 0;
    cost = fl.nought;
    step_count = 0;
    llm_call_count = 0;
    tool_call_count = 0;
    recorder = recorder;
  }

  -- The result, and the recorder. Each turn that does not leave the loop counts a step, so `max_steps`
  -- is fuel enough.
  unfoldable pub execute :
      AgentLoopConfig
      → String
      → Option (Recorder J F)
      → Option (AgentLoopResult F × Option (Recorder J F))
  unfolding loop finish tell
  execute config text recorder =
      elim (loop config.max_steps config.max_steps (start config text recorder)) [
        | none ↦ none
        | some (e, p) ↦ some (finish e p, (tell e p).recorder)
      ]
