-- ===== src/Agents/Loop/Recorded.antt =====
-- What the methods of a `TrajectoryRecorder` add to the calls that its steps hold.
use redops.Base.{
  ℕ, suc, ◌+◌, String, Option, none, some, List, [], ◌∷◌, ◌++◌, length, length-append, Float, ◌≡◌,
  ap, ◌∙◌, arith,
}
use redops.Agents.Tools.{Arguments, ToolRegistry}
use redops.Agents.Recorder.{Recorder}
use redops.Agents.Loop.{ToolCall, Environment}
use redops.Base.{Clock}
use redops.Agents.Trajectory.{ToolCallRecord, LlmCallRecord, TrajectoryStep, calls_of, all_calls}
use redops.Agents.Recorder.{record_llm_call, record_tool_call, record_final_answer}
use redops.Agents.Loop.Steps.{recorded_calls, record_one, parse}

length-all_calls-snoc :
    {J F : Type 0} (ss : List (TrajectoryStep J F)) (s : TrajectoryStep J F)
    → length (all_calls (ss ++ (s ∷ []))) ≡ length (all_calls ss) + length (calls_of s)
unfolding all_calls
length-all_calls-snoc [] s = omega (arith, length-append (calls_of s) [])
length-all_calls-snoc (t ∷ ss) s = omega (
  arith,
  length-append (calls_of t) (all_calls (ss ++ (s ∷ []))),
  length-append (calls_of t) (all_calls ss),
  length-all_calls-snoc ss s,
)

module _ {J F : Type 0} where
  -- There is a recorder, whose steps hold `n` calls of tools.
  abbrev pub Recorded : Option (Recorder J F) → ℕ → Type 0
  Recorded none n = ⊥
  Recorded (some r) n = length (all_calls r.steps) ≡ n

  pub tool_recorded :
      (c : ToolCallRecord J) (now : Clock) (n : ℕ) (rec : Recorder J F)
      → length (all_calls rec.steps) ≡ n
      → length (all_calls (record_tool_call c now rec).steps) ≡ n + 1
  unfolding record_tool_call calls_of
  tool_recorded c now n rec h = length-all_calls-snoc rec.steps _ ∙ ap (λ (k : ℕ). k + 1) h

  pub llm_recorded :
      (c : LlmCallRecord J F) (now : Clock) (n : ℕ) (rec : Recorder J F)
      → length (all_calls rec.steps) ≡ n
      → length (all_calls (record_llm_call c "" now rec).steps) ≡ n + length c.tool_calls_requested
  unfolding record_llm_call calls_of
  llm_recorded c now n rec h =
      length-all_calls-snoc rec.steps _ ∙ ap (λ (k : ℕ). k + length c.tool_calls_requested) h

  pub answer_recorded :
      (text : String) (now : Clock) (n : ℕ) (rec : Recorder J F)
      → length (all_calls rec.steps) ≡ n
      → length (all_calls (record_final_answer text now rec).steps) ≡ n
  unfolding record_final_answer calls_of
  answer_recorded text now n rec h = omega (arith, h, length-all_calls-snoc rec.steps _)

module _ {T J F : Type 0} ⦃fl : Float F⦄ (js : Arguments J) (env : Environment T J F)
    (registry : ToolRegistry T) where
  length-record_one :
      (now : ℕ) (tc : ToolCall) (args : Option J) (rest : Option (List (ToolCallRecord J))) (n : ℕ)
      (cs : List (ToolCallRecord J))
      → ((ds : List (ToolCallRecord J)) → rest ≡ some ds → length ds ≡ n)
      → record_one js env now tc args rest ≡ some cs
      → length cs ≡ suc n
  unfolding record_one
  length-record_one now tc none rest n cs h e = cc
  length-record_one now tc (some args) none n cs h e = cc
  length-record_one now tc (some args) (some ds) n cs h e = ground (arith, h ds)

  pub length-recorded_calls :
      (now : Clock) (tcs : List ToolCall) (cs : List (ToolCallRecord J))
      → recorded_calls js env now tcs ≡ some cs
      → length cs ≡ length tcs
  unfolding recorded_calls
  length-recorded_calls now [] cs h = ground arith
  length-recorded_calls now (tc ∷ tcs) cs h =
      length-record_one (now 3) tc (parse js env tc.arguments) _ (length tcs) cs
        (length-recorded_calls (λ i. now (suc i)) tcs) h
