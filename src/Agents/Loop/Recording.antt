-- ===== src/Agents/Loop/Recording.antt =====
-- What a recorder holds of a run.
use mathlib.Core.Path.{subst}
use redops.Base.{
  ℕ, suc, ◌+◌, String, true, ◌||◌, Option, none, some, List, [], ◌∷◌, length, Float, Result, ok,
  raised, if_ind, ◌≡◌, refl, ap, sym, ◌∙◌, arith,
}
use redops.Agents.Tools.{Arguments, ToolRegistry, ToolExecutionResult, TypeError}
use redops.Agents.Recorder.{Recorder}
use redops.Agents.Loop.{
  ToolCall, Response, Reply, raises, responds, Environment, Progress, Ending, answered,
  was_cancelled, out_of_steps, failed_with, AgentLoopResult, Turn, AgentLoopConfig,
}
use redops.Agents.Loop.Steps.{
  stepped, call_tool, after_tool, note_tool, observe, run_tools, note_response, counted,
}
use redops.Agents.Loop.Execute.{
  follow, receive, ask, turn, loop, finish, start, execute, tell, noted, has_tools,
}
use redops.Agents.Loop.Rule.{OnTurn}
use redops.Base.{Clock}
use redops.Agents.Trajectory.{ToolCallRecord, all_calls, all_tool_calls}
use redops.Agents.Recorder.{Entry, record_final_answer, build}
use redops.Agents.Loop.Rule.{Returns, loop_rule}
use redops.Agents.Loop.Bounds.{returned}
use redops.Agents.Loop.Steps.{recorded_calls, note_llm_call, note_calls}
use redops.Agents.Loop.Recorded.{
  Recorded, tool_recorded, llm_recorded, answer_recorded, length-recorded_calls,
}

some_pair :
    {A B : Type 0} {a c : A} {b d : B}
    → ◌≡◌ {A = Option (A × B)} (some (a, b)) (some (c, d))
    → (a ≡ c) × (b ≡ d)
some_pair e = (cc, cc)

module _ {T J F : Type 0} ⦃fl : Float F⦄ (js : Arguments J) (env : Environment T J F)
    (registry : ToolRegistry T) where
  -- Each call of a tool is recorded twice.
  abbrev Twice : Progress J F → Type 0
  Twice p = Recorded p.recorder (p.tool_call_count + p.tool_call_count)

  abbrev Ended : Ending → Progress J F → Type 0
  Ended (answered text) p = Twice p
  Ended was_cancelled p = Unit
  Ended out_of_steps p = Unit
  Ended (failed_with f) p = Unit

  noted-Recorded :
      (tc : ToolCall) (n : ℕ) (r : ToolExecutionResult) (p : Progress J F)
      (o : Option (Recorder J F))
      → Recorded o n
      → Recorded (note_tool js env tc r (record p { recorder = o })).recorder (n + 1)
  unfolding note_tool
  noted-Recorded tc n r p none h = h
  noted-Recorded tc n r p (some rec) h = tool_recorded _ _ n rec h

  after_tool-Twice :
      (n : ℕ) (again : Progress J F → Turn J F) (tc : ToolCall) (p : Progress J F)
      (r : Result TypeError ToolExecutionResult)
      → ((q : Progress J F)
          → Recorded q.recorder (q.tool_call_count + (q.tool_call_count + n))
          → OnTurn Twice Ended (again q))
      → Recorded p.recorder (p.tool_call_count + (p.tool_call_count + suc n))
      → OnTurn Twice Ended (after_tool js env registry again tc (stepped p) r)
  unfolding after_tool
  after_tool-Twice n again tc p (raised e) next h = tt
  after_tool-Twice n again tc p (ok r) next h =
      if_ind (OnTurn Twice Ended) (env.cancelled_after (p.tool_call_count + 1)) tt (
        next _ (
          subst (Recorded (note_tool js env tc r (stepped p)).recorder) (omega arith)
            (noted-Recorded tc _ r (stepped p) p.recorder h)))

  run_tools-Twice :
      (tcs : List ToolCall) (p : Progress J F)
      → Recorded p.recorder (p.tool_call_count + (p.tool_call_count + length tcs))
      → OnTurn Twice Ended (run_tools js env registry tcs p)
  unfolding run_tools
  run_tools-Twice [] p h = subst (Recorded p.recorder) (omega arith) h
  run_tools-Twice (tc ∷ tcs) p h =
      after_tool-Twice (length tcs) (run_tools js env registry tcs) tc p
        (call_tool js env registry tc (stepped p)) (run_tools-Twice tcs) h

  observed-answer :
      (text : String) (now : Clock) (n : ℕ) (p : Progress J F) (o : Option (Recorder J F))
      → Recorded o n
      → Recorded (observe (record_final_answer text now) (record p { recorder = o })).recorder n
  observed-answer text now n p none h = h
  observed-answer text now n p (some rec) h = answer_recorded text now n rec h

  follow-Twice :
      (r : Response F) (tcs : List ToolCall) (p : Progress J F)
      → Recorded p.recorder (p.tool_call_count + (p.tool_call_count + length tcs))
      → OnTurn Twice Ended (follow js env registry r tcs p)
  unfolding follow
  follow-Twice r [] p h =
      observed-answer r.content env.answer_clock _ p p.recorder
        (subst (Recorded p.recorder) (omega arith) h)
  follow-Twice r (tc ∷ tcs) p h = run_tools-Twice (tc ∷ tcs) _ h

  calls-Twice :
      (r : Response F) (p : Progress J F) (k sent : ℕ) (rec : Recorder J F)
      (calls : Option (List (ToolCallRecord J)))
      → recorded_calls js env (env.llm_clock k) r.tool_calls ≡ calls
      → Recorded (some rec) (p.tool_call_count + p.tool_call_count)
      → OnTurn Twice Ended
          (noted js env registry r (counted r p) (note_calls js env k sent r rec calls))
  unfolding noted note_calls note_llm_call
  calls-Twice r p k sent rec none e h = tt
  calls-Twice r p k sent rec (some cs) e h = follow-Twice r r.tool_calls _ (
      llm_recorded _ _ _ rec h
      ∙ omega (arith, length-recorded_calls js env registry (env.llm_clock k) r.tool_calls cs e))

  noted-Twice :
      (r : Response F) (p : Progress J F) (k sent : ℕ) (o : Option (Recorder J F))
      → Recorded o (p.tool_call_count + p.tool_call_count)
      → OnTurn Twice Ended (noted js env registry r (counted r p) (note_response js env k sent r o))
  unfolding note_response
  noted-Twice r p k sent none h = absurd h
  noted-Twice r p k sent (some rec) h =
      calls-Twice r p k sent rec (recorded_calls js env (env.llm_clock k) r.tool_calls) refl h

  receive-Twice :
      (p : Progress J F) (reply : Reply F)
      → Twice p
      → OnTurn Twice Ended (receive js env registry p reply)
  unfolding receive
  receive-Twice p (raises text) h = tt
  receive-Twice p (responds r) h = noted-Twice r p _ _ p.recorder h

  turn-Twice : (p : Progress J F) → Twice p → OnTurn Twice Ended (turn js env registry p)
  unfolding turn ask
  turn-Twice p h = if_ind (OnTurn Twice Ended) (env.cancelled_before p.llm_call_count) tt (
      if_ind (OnTurn Twice Ended) (has_tools js env registry || env.supports_chat)
        (receive-Twice p _ h) tt)

module _ {T J F : Type 0} ⦃fl : Float F⦄ (js : Arguments J) (env : Environment T J F)
    (registry : ToolRegistry T) (config : AgentLoopConfig) (text : String)
    (rec : Recorder J F) where
  abbrev begun : Progress J F
  begun = start js env registry config text (some rec)

  run-Twice :
      length (all_calls rec.steps) ≡ 0
      → Returns
          (Ended js env registry)
          (loop js env registry config.max_steps config.max_steps begun)
  run-Twice none_yet =
      loop_rule js env registry config.max_steps (Twice js env registry) (Ended js env registry)
        (λ q h more. turn-Twice js env registry q h) (λ q h done. tt) config.max_steps begun
        (omega arith) none_yet

  told-Twice :
      (e : Ending) (p : Progress J F) (after : Recorder J F)
      → Ended js env registry e p
      → (finish js env registry e p).success ≡ true
      → (tell js env registry e p).recorder ≡ some after
      → length (all_calls after.steps)
        ≡ (finish js env registry e p).total_tool_calls
          + (finish js env registry e p).total_tool_calls
  unfolding finish tell
  told-Twice (answered t) p after h s k =
      subst (λ o. Recorded o (p.tool_call_count + p.tool_call_count)) k h
  told-Twice was_cancelled p after h s k = cc
  told-Twice out_of_steps p after h s k = cc
  told-Twice (failed_with f) p after h s k = cc

  -- A run with a fresh recorder that succeeds leaves a trajectory whose `all_tool_calls` lists
  -- twice as many calls as the run has made, since each is recorded as requested and as executed.
  pub execute_calls_twice :
      (r : AgentLoopResult F) (after : Recorder J F) (entry : Entry J → J)
      (object : List (String × J) → J) (id : String) (now : Clock)
      → rec.steps ≡ []
      → execute js env registry config text (some rec) ≡ some (r, some after)
      → r.success ≡ true
      → length (all_tool_calls (build entry object id now after))
        ≡ r.total_tool_calls + r.total_tool_calls
  unfolding all_tool_calls build
  execute_calls_twice r after entry object id now fresh e s =
      let end = run-Twice (simp fresh) in
      let (same, told) = some_pair (
        sym (returned js env registry config text (some rec) end.ending end.final end.returned)
        ∙ e) in
      told-Twice end.ending end.final after end.holds
        (ap (λ (x : AgentLoopResult F). x.success) same ∙ s) told
      ∙ ap (λ (x : AgentLoopResult F). x.total_tool_calls + x.total_tool_calls) same
