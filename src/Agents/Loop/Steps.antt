-- ===== src/Agents/Loop/Steps.antt =====
-- agent_loop.py: what a turn of the loop does with a response and its tool calls.
use redops.Base.{
  ℕ, suc, ◌+◌, String, false, if◌then◌else◌, Option, none, some, List, [], ◌∷◌, ◌++◌, is_empty,
  Clock, Float, Result, ok, raised,
}
use redops.Agents.Trajectory.{ToolCallRecord}
use redops.Agents.Tools.{
  Arguments, ToolRegistry, ToolExecutionResult, TypeError, is_success, execute as execute_tool,
}
use redops.Agents.Recorder.{Recorder, record_llm_call, record_tool_call}
use redops.Agents.Loop.{
  ToolCall, Content, result_text, error_text, tool, Response, bad_arguments, Environment, Progress,
  was_cancelled, failed_with, Turn, on, left,
}

abbrev pub content_of : ToolExecutionResult → Content
content_of r = if is_success r then result_text r.result else error_text r.error

module _ {J F : Type 0} where
  abbrev pub observe : (Recorder J F → Recorder J F) → Progress J F → Progress J F
  observe f p = record p { recorder = elim p.recorder [ none ↦ none | some r ↦ some (f r) ] }

  -- `step_count += 1`, `tool_call_count += 1`
  abbrev pub stepped : Progress J F → Progress J F
  stepped p = record p { step_count = p.step_count + 1; tool_call_count = p.tool_call_count + 1 }

module _ {J F : Type 0} ⦃fl : Float F⦄ where
  -- The counters after a response.
  abbrev pub counted : Response F → Progress J F → Progress J F
  counted r p = record p {
    llm_call_count = p.llm_call_count + 1;
    tokens_input = p.tokens_input + r.input_tokens;
    tokens_output = p.tokens_output + r.output_tokens;
    cost = fl.add p.cost r.cost;
  }

module _ {T J F : Type 0} ⦃fl : Float F⦄ (js : Arguments J) (env : Environment T J F) where
  -- `json.loads(tc.arguments) if tc.arguments else {}`
  unfoldable pub parse : String → Option J
  parse text = if is_empty text then some js.empty else js.loads text

  -- An entry of the comprehension, with its parsed arguments and the rest of the tuple.
  unfoldable pub record_one :
      ℕ → ToolCall → Option J → Option (List (ToolCallRecord J)) → Option (List (ToolCallRecord J))
  record_one now tc none rest = none
  record_one now tc (some args) none = none
  record_one now tc (some args) (some cs) = some (
      record {
        tool_call_id = tc.tool_call_id;
        tool_name = tc.name;
        arguments = args;
        result = "";
        is_error = false;
        latency_ms = 0;
        started_at = now;
        completed_at = none;
      }
      ∷ cs)

  -- The tuple of records for the recorder: the comprehension stops at a `JSONDecodeError`. The
  -- readings with the indices 0 to 2 are those of `record_llm_call`.
  unfoldable pub recorded_calls : Clock → List ToolCall → Option (List (ToolCallRecord J))
  unfolding parse record_one
  recorded_calls now [] = some []
  recorded_calls now (tc ∷ tcs) =
      record_one (now 3) tc (parse tc.arguments) (recorded_calls (λ i. now (suc i)) tcs)

  -- `recorder.record_llm_call(…)`
  unfoldable pub note_llm_call :
      ℕ → ℕ → Response F → List (ToolCallRecord J) → Recorder J F → Recorder J F
  note_llm_call n sent r calls recorder =
      record_llm_call
        (record {
          provider = r.provider;
          model = r.model;
          messages_sent = sent;
          response_content = r.content;
          tool_calls_requested = calls;
          tokens_input = r.input_tokens;
          tokens_output = r.output_tokens;
          cost_usd = fl.nought;
          latency_ms = env.llm_elapsed n;
          finish_reason = r.finish_reason;
          started_at = 0;
          completed_at = none;
        })
        "" (env.llm_clock n) recorder

  -- `if recorder is not None:`, after a response; `none` is a `JSONDecodeError`.
  unfoldable pub note_calls :
      ℕ
      → ℕ
      → Response F
      → Recorder J F
      → Option (List (ToolCallRecord J))
      → Option (Option (Recorder J F))
  unfolding note_llm_call
  note_calls n sent r recorder none = none
  note_calls n sent r recorder (some calls) = some (some (note_llm_call n sent r calls recorder))

  unfoldable pub note_response :
      ℕ → ℕ → Response F → Option (Recorder J F) → Option (Option (Recorder J F))
  unfolding note_calls recorded_calls
  note_response n sent r none = some none
  note_response n sent r (some recorder) =
      note_calls n sent r recorder (recorded_calls (env.llm_clock n) r.tool_calls)

  -- `args = json.loads(…) … except json.JSONDecodeError: args = {}`
  unfoldable pub arguments_of : ToolCall → J
  unfolding parse
  arguments_of tc = elim (parse tc.arguments) [ none ↦ js.empty | some args ↦ args ]

  -- What follows the execution of a tool: it is recorded, and its message is sent.
  unfoldable pub note_tool : ToolCall → ToolExecutionResult → Progress J F → Progress J F
  unfolding arguments_of is_success
  note_tool tc r p =
      let n = p.tool_call_count in
      observe
        (record_tool_call
          (record {
            tool_call_id = tc.tool_call_id;
            tool_name = tc.name;
            arguments = arguments_of tc;
            result = r.result;
            is_error = r.is_error;
            latency_ms = env.tool_elapsed n;
            started_at = 0;
            completed_at = none;
          })
          (env.tool_clock n))
        (record p { messages = p.messages ++ (tool tc.tool_call_id (content_of r) ∷ []) })

module _ {T J F : Type 0} ⦃fl : Float F⦄ (js : Arguments J) (env : Environment T J F)
    (registry : ToolRegistry T) where
  unfoldable pub call_tool : ToolCall → Progress J F → Result TypeError ToolExecutionResult
  unfolding arguments_of
  call_tool tc p =
      let n = p.tool_call_count in
      execute_tool js (env.tool_outcome n) (env.tool_elapsed n) tc.name (arguments_of js env tc)
        registry

  -- A turn of the `for` loop after the call, and the rest of the loop.
  unfoldable pub after_tool :
      (Progress J F → Turn J F)
      → ToolCall
      → Progress J F
      → Result TypeError ToolExecutionResult
      → Turn J F
  unfolding note_tool
  after_tool again tc p (raised e) = left (failed_with bad_arguments) p
  after_tool again tc p (ok r) =
      let noted = note_tool js env tc r p in
      if env.cancelled_after p.tool_call_count then left was_cancelled noted else again noted

  -- The `for` loop over the tool calls of a response.
  unfoldable pub run_tools : List ToolCall → Progress J F → Turn J F
  unfolding call_tool after_tool
  run_tools [] p = on p
  run_tools (tc ∷ tcs) p = after_tool (run_tools tcs) tc (stepped p) (call_tool tc (stepped p))
