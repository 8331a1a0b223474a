-- ===== src/Agents/Loop/Rule.antt =====
-- What a turn of the loop counts, and a rule for what the loop returns.
use redops.Base.{
  ℕ, zero, suc, ◌+◌, ◌≤◌, ◌<◌, ◌||◌, ltb, Option, none, some, List, [], ◌∷◌, length, Float, Result,
  ok, raised, Bool-cases, if_ind, inl, inr, ◌≡◌, refl, arith, ltb→lt,
}
use redops.Agents.Tools.{Arguments, ToolRegistry, ToolExecutionResult, TypeError}
use redops.Agents.Recorder.{Recorder}
use redops.Agents.Loop.{
  ToolCall, Response, Reply, raises, responds, Environment, Progress, Ending, out_of_steps, Turn,
  on, left,
}
use redops.Agents.Loop.Steps.{
  stepped, call_tool, after_tool, note_tool, run_tools, note_response, counted,
}
use redops.Agents.Loop.Execute.{follow, receive, ask, turn, loop, noted, has_tools, proceed}

module _ {J F : Type 0} where
  -- The tool calls of a response, `n` of them, lead from `p` to the end of the turn.
  abbrev pub RunsTo : ℕ → Progress J F → Turn J F → Type 0
  RunsTo n p (on q) =
      (q.step_count ≡ p.step_count + n)
      × (q.tool_call_count ≡ p.tool_call_count + n)
      × (q.llm_call_count ≡ p.llm_call_count)
  RunsTo n p (left e q) =
      (q.step_count + p.tool_call_count ≡ p.step_count + q.tool_call_count)
      × (p.step_count ≤ q.step_count)
      × (q.llm_call_count ≡ p.llm_call_count)

  -- A turn that goes on has made one call of the provider and has counted a step.
  abbrev pub TurnsTo : Progress J F → Turn J F → Type 0
  TurnsTo p (on q) =
      (q.step_count + p.tool_call_count ≡ p.step_count + q.tool_call_count)
      × (p.step_count < q.step_count)
      × (q.llm_call_count ≡ suc p.llm_call_count)
  TurnsTo p (left e q) =
      (q.step_count + p.tool_call_count ≡ p.step_count + q.tool_call_count)
      × (p.step_count ≤ q.step_count)
      × (q.llm_call_count ≤ suc p.llm_call_count)

module _ {T J F : Type 0} ⦃fl : Float F⦄ (js : Arguments J) (env : Environment T J F)
    (registry : ToolRegistry T) where
  after_tool-RunsTo :
      (n : ℕ) (again : Progress J F → Turn J F) (tc : ToolCall) (p : Progress J F)
      (r : Result TypeError ToolExecutionResult)
      → ((q : Progress J F) → RunsTo n q (again q))
      → RunsTo (suc n) p (after_tool js env registry again tc (stepped p) r)
  unfolding after_tool note_tool
  after_tool-RunsTo n again tc p (raised e) h = omega arith
  after_tool-RunsTo n again tc p (ok r) h =
      if_ind (RunsTo (suc n) p) (env.cancelled_after (p.tool_call_count + 1)) (omega arith) (
        one_more (again (note_tool js env tc r (stepped p)))
          (h (note_tool js env tc r (stepped p))))
    where
      one_more :
          (t : Turn J F) → RunsTo n (note_tool js env tc r (stepped p)) t → RunsTo (suc n) p t
      one_more (on q) h = omega arith
      one_more (left e q) h = omega arith

  run_tools-RunsTo :
      (tcs : List ToolCall) (p : Progress J F)
      → RunsTo (length tcs) p (run_tools js env registry tcs p)
  unfolding run_tools
  run_tools-RunsTo [] p = omega arith
  run_tools-RunsTo (tc ∷ tcs) p =
      after_tool-RunsTo (length tcs) (run_tools js env registry tcs) tc p
        (call_tool js env registry tc (stepped p)) (run_tools-RunsTo tcs)

  follow-TurnsTo :
      (r : Response F) (tcs : List ToolCall) (p q : Progress J F)
      → (q.step_count ≡ p.step_count)
        × (q.tool_call_count ≡ p.tool_call_count)
        × (q.llm_call_count ≡ suc p.llm_call_count)
      → TurnsTo p (follow js env registry r tcs q)
  unfolding follow
  follow-TurnsTo r [] p q h = omega arith
  follow-TurnsTo r (tc ∷ tcs) p q h =
      ran (run_tools js env registry (tc ∷ tcs) _) (run_tools-RunsTo (tc ∷ tcs) _)
    where
      ran : (t : Turn J F) → RunsTo (suc (length tcs)) q t → TurnsTo p t
      ran (on q') k = omega arith
      ran (left e q') k = omega arith

  noted-TurnsTo :
      (r : Response F) (p : Progress J F) (note : Option (Option (Recorder J F)))
      → TurnsTo p (noted js env registry r (counted r p) note)
  unfolding noted
  noted-TurnsTo r p none = omega arith
  noted-TurnsTo r p (some recorder) = follow-TurnsTo r r.tool_calls p _ (omega arith)

  receive-TurnsTo :
      (p : Progress J F) (reply : Reply F) → TurnsTo p (receive js env registry p reply)
  unfolding receive
  receive-TurnsTo p (raises text) = omega arith
  receive-TurnsTo p (responds r) =
      noted-TurnsTo r p (note_response js env p.llm_call_count (length p.messages) r p.recorder)

  pub turn-TurnsTo : (p : Progress J F) → TurnsTo p (turn js env registry p)
  unfolding turn ask
  turn-TurnsTo p = if_ind (TurnsTo p) (env.cancelled_before p.llm_call_count) (omega arith) (
      if_ind (TurnsTo p) (has_tools js env registry || env.supports_chat) (receive-TurnsTo p _)
        (omega arith))

-- An invariant at the head of the loop, or what holds where the turn has left it.
abbrev pub OnTurn :
    {J F : Type 0} → (Progress J F → Type 0) → (Ending → Progress J F → Type 0) → Turn J F → Type 0
OnTurn P Q (on q) = P q
OnTurn P Q (left e q) = Q e q

-- What the loop returns.
pub record Returns {J F : Type 0} (Q : Ending → Progress J F → Type 0)
    (r : Option (Ending × Progress J F)) : Type 0 where
  pub ending : Ending
  pub final : Progress J F
  pub returned : r ≡ some (ending, final)
  pub holds : Q ending final

module _ {T J F : Type 0} ⦃fl : Float F⦄ (js : Arguments J) (env : Environment T J F)
    (registry : ToolRegistry T) (max_steps : ℕ) (P : Progress J F → Type 0)
    (Q : Ending → Progress J F → Type 0)
    (keep : (p : Progress J F)
      → P p
      → p.step_count < max_steps
      → OnTurn P Q (turn js env registry p))
    (stop : (p : Progress J F) → P p → max_steps ≤ p.step_count → Q out_of_steps p) where
  abbrev run : ℕ → Progress J F → Option (Ending × Progress J F)
  run fuel = loop js env registry fuel max_steps

  proceed_rule :
      (fuel : ℕ) (p : Progress J F) (t : Turn J F)
      → ((q : Progress J F) → max_steps ≤ fuel + q.step_count → P q → Returns Q (run fuel q))
      → max_steps ≤ suc fuel + p.step_count
      → TurnsTo p t
      → OnTurn P Q t
      → Returns Q (proceed js env registry (run fuel) t)
  proceed_rule fuel p (on q) again enough moved h = again q (omega arith) h
  proceed_rule fuel p (left e q) again enough moved h = record {
    ending = e;
    final = q;
    returned = refl;
    holds = h;
  }

  -- With fuel for the steps that are left, the loop returns.
  pub loop_rule :
      (fuel : ℕ) (p : Progress J F) → max_steps ≤ fuel + p.step_count → P p → Returns Q (run fuel p)
  unfolding loop
  loop_rule zero p enough h = record {
    ending = out_of_steps;
    final = p;
    returned = ground arith;
    holds = stop p h (omega arith);
  }
  loop_rule (suc fuel) p enough h = elim (Bool-cases (ltb p.step_count max_steps)) [
    | inl more ↦ rw more (
        proceed_rule fuel p (turn js env registry p) (loop_rule fuel) enough
          (turn-TurnsTo js env registry p) (keep p h (ltb→lt _ _ more)))
    | inr done ↦ rw done (record {
      ending = out_of_steps;
      final = p;
      returned = refl;
      holds = stop p h (ground arith);
    })
  ]
