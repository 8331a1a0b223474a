-- ===== src/Agents/Loop/Bounds.antt =====
-- The loop ends, and the counters of its result.
use redops.Base.{
  ℕ, suc, ◌≤◌, ◌<◌, String, not, Option, some, Float, is_some, str_eq, ◌≡◌, refl, arith,
}
use redops.Agents.Tools.{Arguments, ToolRegistry}
use redops.Agents.Recorder.{Recorder}
use redops.Agents.Loop.{
  Environment, Progress, Ending, answered, was_cancelled, out_of_steps, failed_with,
  AgentLoopResult, Turn, on, left, AgentLoopConfig,
}
use redops.Agents.Loop.Execute.{turn, loop, finish, start, execute, tell}
use redops.Agents.Loop.Rule.{TurnsTo, turn-TurnsTo, OnTurn, loop_rule}

-- The counters at the head of the loop.
record IsCounting {J F : Type 0} (max_steps : ℕ) (p : Progress J F) : Type 0 where
  steps : p.step_count ≡ p.tool_call_count
  calls : p.llm_call_count ≤ p.step_count
  within : p.llm_call_count ≤ max_steps

-- The counters of a result, and what its fields say of one another.
pub record IsSound {F : Type 0} (config : AgentLoopConfig) (r : AgentLoopResult F) : Type 0 where
  pub steps : r.total_steps ≡ r.total_tool_calls
  pub calls : r.total_llm_calls ≤ suc r.total_steps
  pub within : r.total_llm_calls ≤ config.max_steps
  pub no_error : is_some r.error ≡ not r.success
  pub completed : str_eq r.status "completed" ≡ r.success

module _ {T J F : Type 0} ⦃fl : Float F⦄ (js : Arguments J) (env : Environment T J F)
    (registry : ToolRegistry T) (config : AgentLoopConfig) where
  abbrev Sound : Ending → Progress J F → Type 0
  Sound e p = IsSound config (finish js env registry e p)

  finish-IsSound :
      (e : Ending) (p : Progress J F)
      → p.step_count ≡ p.tool_call_count
      → p.llm_call_count ≤ suc p.step_count
      → p.llm_call_count ≤ config.max_steps
      → Sound e p
  unfolding finish
  finish-IsSound (answered text) p s c w = record {
    steps = s;
    calls = c;
    within = w;
    no_error = refl;
    completed = refl;
  }
  finish-IsSound was_cancelled p s c w = record {
    steps = s;
    calls = c;
    within = w;
    no_error = refl;
    completed = refl;
  }
  finish-IsSound out_of_steps p s c w = record {
    steps = s;
    calls = c;
    within = w;
    no_error = refl;
    completed = refl;
  }
  finish-IsSound (failed_with f) p s c w = record {
    steps = s;
    calls = c;
    within = w;
    no_error = refl;
    completed = refl;
  }

  pub returned :
      (text : String) (recorder : Option (Recorder J F)) (e : Ending) (p : Progress J F)
      → loop js env registry config.max_steps config.max_steps
          (start js env registry config text recorder)
        ≡ some (e, p)
      → execute js env registry config text recorder
        ≡ some (finish js env registry e p, (tell js env registry e p).recorder)
  unfolding execute
  returned text recorder e p h = rw (h, execute)

  turn-Sound :
      (p : Progress J F) (t : Turn J F)
      → IsCounting config.max_steps p
      → p.step_count < config.max_steps
      → TurnsTo p t
      → OnTurn (IsCounting config.max_steps) Sound t
  turn-Sound p (on q) h more moved = omega arith
  turn-Sound p (left e q) h more moved =
      finish-IsSound e q (omega arith) (omega arith) (omega arith)

  -- `execute` returns, whatever the provider and the tools do: after at most `max_steps` calls of the
  -- provider, with as many steps as calls of tools, at most one call of the provider more than
  -- steps, and with success exactly where there is no error and the status is "completed".
  pub execute-IsSound :
      (text : String) (recorder : Option (Recorder J F))
      → (r : AgentLoopResult F) × (after : Option (Recorder J F)) × (execute js env registry config
            text recorder
          ≡ some (r, after))
        × IsSound config r
  execute-IsSound text recorder =
      let p = start js env registry config text recorder in
      let end =
        loop_rule js env registry config.max_steps (IsCounting config.max_steps) Sound
          (λ q h more.
            turn-Sound q (turn js env registry q) h more (turn-TurnsTo js env registry q))
          (λ q h done. finish-IsSound out_of_steps q h.steps (omega arith) h.within)
          config.max_steps p (omega arith) (omega arith) in
      (
        finish js env registry end.ending end.final,
        (tell js env registry end.ending end.final).recorder,
        returned text recorder end.ending end.final end.returned,
        end.holds,
      )
