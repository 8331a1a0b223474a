-- ===== src/Agents/Trajectory/Metrics.antt =====
-- `compute_trajectory_metrics`, and what it counts.
use Prim.Native.String.{compare}
use Prim.Native.Nat.{Ordering}
use redops.Base.{
  ℕ, ◌+◌, String, Bool, false, ltb, if◌then◌else◌, Option, none, some, List, [], ◌∷◌, ◌++◌, length,
  last_or, count_if, pos, Float, sum_of,
}
use redops.Agents.Trajectory.{
  ToolCallRecord, LlmCallRecord, TrajectoryStep, TrajectoryMetrics, is_error_step,
}

-- A Python set of texts that is read by `sorted` only, kept in order.
unfoldable pub add_sorted : String → List String → List String
add_sorted x [] = x ∷ []
add_sorted x (y ∷ ys) =
    let rest = add_sorted x ys in
    elim (compare x y) [
      | Ordering.lt ↦ x ∷ (y ∷ ys)
      | Ordering.eq ↦ y ∷ ys
      | Ordering.gt ↦ y ∷ rest
    ]

unfoldable pub add_names : {J : Type 0} → List (ToolCallRecord J) → List String → List String
unfolding add_sorted
add_names [] used = used
add_names (c ∷ cs) used = add_names cs (add_sorted c.tool_name used)

-- The variables of the loop over the steps.
pub record Tally (F : Type 0) : Type 0 where
  pub llm_calls : ℕ
  pub tool_calls : ℕ
  pub tool_results : ℕ
  pub errors : ℕ
  pub tokens_input : ℕ
  pub tokens_output : ℕ
  pub cost_usd : F
  pub llm_latencies : List ℕ
  pub tool_latencies : List ℕ
  pub tools_used : List String

module _ {F : Type 0} ⦃fl : Float F⦄ where
  abbrev pub no_tally : Tally F
  no_tally = record {
    llm_calls = 0;
    tool_calls = 0;
    tool_results = 0;
    errors = 0;
    tokens_input = 0;
    tokens_output = 0;
    cost_usd = fl.nought;
    llm_latencies = [];
    tool_latencies = [];
    tools_used = [];
  }

  -- `sum(xs) / len(xs) if xs else 0.0`
  unfoldable pub average : List ℕ → F
  average [] = fl.nought
  average (x ∷ xs) = fl.ratio (sum_of (x ∷ xs)) (length (x ∷ xs))

  abbrev pub no_metrics : TrajectoryMetrics F
  no_metrics = record {
    total_steps = 0;
    llm_calls = 0;
    tool_calls = 0;
    tool_results = 0;
    errors = 0;
    total_tokens_input = 0;
    total_tokens_output = 0;
    total_cost_usd = fl.nought;
    total_duration_ms = pos 0;
    unique_tools_used = [];
    tool_error_rate = fl.nought;
    average_llm_latency_ms = fl.nought;
    average_tool_latency_ms = fl.nought;
  }

module _ {J F : Type 0} ⦃fl : Float F⦄ where
  unfoldable pub count_error : TrajectoryStep J F → Tally F → Tally F
  count_error s t = if is_error_step s then record t { errors = t.errors + 1 } else t

  -- `if step.llm_call is not None:`
  unfoldable pub count_llm : Option (LlmCallRecord J F) → Tally F → Tally F
  unfolding add_names
  count_llm none t = t
  count_llm (some c) t = record t {
    llm_calls = t.llm_calls + 1;
    tokens_input = t.tokens_input + c.tokens_input;
    tokens_output = t.tokens_output + c.tokens_output;
    cost_usd = fl.add t.cost_usd c.cost_usd;
    llm_latencies = t.llm_latencies ++ (c.latency_ms ∷ []);
    tools_used = add_names c.tool_calls_requested t.tools_used;
  }

  -- `if step.tool_call is not None:`
  unfoldable pub count_tool : Option (ToolCallRecord J) → Tally F → Tally F
  unfolding add_sorted
  count_tool none t = t
  count_tool (some c) t = record t {
    tool_calls = t.tool_calls + 1;
    tool_results = t.tool_results + 1;
    tool_latencies = t.tool_latencies ++ (c.latency_ms ∷ []);
    tools_used = add_sorted c.tool_name t.tools_used;
  }

  unfoldable pub count_step : TrajectoryStep J F → Tally F → Tally F
  unfolding count_error count_llm count_tool
  count_step s t = count_tool s.tool (count_llm s.llm (count_error s t))

  unfoldable pub count_steps : List (TrajectoryStep J F) → Tally F → Tally F
  unfolding count_step
  count_steps [] t = t
  count_steps (s ∷ ss) t = count_steps ss (count_step s t)

  abbrev pub is_tool_error : TrajectoryStep J F → Bool
  is_tool_error s = elim s.tool [ none ↦ false | some c ↦ c.is_error ]

  unfoldable pub compute_trajectory_metrics : List (TrajectoryStep J F) → TrajectoryMetrics F
  unfolding count_steps average
  compute_trajectory_metrics [] = no_metrics
  compute_trajectory_metrics (s ∷ ss) =
      let t = count_steps (s ∷ ss) no_tally in
      record {
        total_steps = length (s ∷ ss);
        llm_calls = t.llm_calls;
        tool_calls = t.tool_calls;
        tool_results = t.tool_results;
        errors = t.errors;
        total_tokens_input = t.tokens_input;
        total_tokens_output = t.tokens_output;
        total_cost_usd = t.cost_usd;
        total_duration_ms = fl.millis (last_or s ss).timestamp s.timestamp;
        unique_tools_used = t.tools_used;
        tool_error_rate =
            if ltb 0 t.tool_calls
            then fl.ratio (count_if is_tool_error (s ∷ ss)) t.tool_calls
            else fl.nought;
        average_llm_latency_ms = average t.llm_latencies;
        average_tool_latency_ms = average t.tool_latencies;
      }
