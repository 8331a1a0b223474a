-- ===== src/Agents/Trajectory/Counted.antt =====
-- The metrics of a trajectory against plain counts over its steps.
use redops.Base.{
  ◌+◌, String, Bool, ◌||◌, is_some, Option, none, some, List, [], ◌∷◌, ◌++◌, length, count_if,
  Float, contains, str_eq, eq_iff, ◌≡◌, refl, arith, sum_of, contains-append, map, ap, ◌∙◌,
}
use mathlib.Core.List.{map-append}
use redops.Agents.Trajectory.{
  ToolCallRecord, LlmCallRecord, TrajectoryStep, TrajectoryMetrics, is_error_step, tokens_used,
  requested, optional, calls_of, all_calls,
}
use redops.Agents.Trajectory.Metrics.{
  add_sorted, add_names, Tally, no_tally, count_error, count_llm, count_tool, count_step,
  count_steps, compute_trajectory_metrics,
}

contains-add_sorted :
    (n x : String) (xs : List String) → contains n (add_sorted x xs) ≡ (str_eq x n || contains n xs)
unfolding contains add_sorted
contains-add_sorted n x [] = refl
contains-add_sorted n x (y ∷ ys) =
    ground (arith, contains-add_sorted n x ys, eq_iff x y, eq_iff x n, eq_iff y n)

abbrev names_of : {J : Type 0} → List (ToolCallRecord J) → List String
names_of cs = map (λ c. c.tool_name) cs

contains-names :
    {J : Type 0} (n : String) (xs ys : List (ToolCallRecord J))
    → contains n (names_of (xs ++ ys)) ≡ (contains n (names_of xs) || contains n (names_of ys))
contains-names n xs ys =
    ap (contains n) (map-append (λ c. c.tool_name) xs ys)
    ∙ contains-append n (names_of xs) (names_of ys)

contains-add_names :
    {J : Type 0} (n : String) (cs : List (ToolCallRecord J)) (used : List String)
    → contains n (add_names cs used) ≡ (contains n (names_of cs) || contains n used)
unfolding contains add_names
contains-add_names n [] used = refl
contains-add_names n (c ∷ cs) used = ground (
  arith,
  contains-add_names n cs (add_sorted c.tool_name used),
  contains-add_sorted n c.tool_name used,
)

module _ {J F : Type 0} ⦃fl : Float F⦄ where
  abbrev calls_provider : TrajectoryStep J F → Bool
  calls_provider s = is_some s.llm

  abbrev calls_tool : TrajectoryStep J F → Bool
  calls_tool s = is_some s.tool

  -- The metrics are the numbers of the steps of each kind, of their tokens and of their tools.
  pub record IsCounted (ss : List (TrajectoryStep J F)) (m : TrajectoryMetrics F) : Type 0 where
    pub steps : m.total_steps ≡ length ss
    pub llm_calls : m.llm_calls ≡ count_if calls_provider ss
    pub tool_calls : m.tool_calls ≡ count_if calls_tool ss
    pub tool_results : m.tool_results ≡ count_if calls_tool ss
    pub errors : m.errors ≡ count_if is_error_step ss
    pub tokens : m.total_tokens_input + m.total_tokens_output ≡ sum_of (map tokens_used ss)
    pub tools : (n : String) → contains n m.unique_tools_used ≡ contains n (names_of (all_calls ss))

  record Adds (ss : List (TrajectoryStep J F)) (t u : Tally F) : Type 0 where
    llm_calls : u.llm_calls ≡ t.llm_calls + count_if calls_provider ss
    tool_calls : u.tool_calls ≡ t.tool_calls + count_if calls_tool ss
    tool_results : u.tool_results ≡ t.tool_results + count_if calls_tool ss
    errors : u.errors ≡ t.errors + count_if is_error_step ss
    tokens :
        u.tokens_input + u.tokens_output
        ≡ t.tokens_input + t.tokens_output + sum_of (map tokens_used ss)

  step-Adds : (s : TrajectoryStep J F) (t : Tally F) → Adds (s ∷ []) t (count_step s t)
  unfolding count_step tokens_used
  step-Adds s t = ground arith

  steps_add : (ss : List (TrajectoryStep J F)) (t : Tally F) → Adds ss t (count_steps ss t)
  unfolding count_steps
  steps_add [] t = omega arith
  steps_add (s ∷ ss) t =
      let one = step-Adds s t in let more = steps_add ss (count_step s t) in ground arith

  error_tools : (s : TrajectoryStep J F) (t : Tally F) → (count_error s t).tools_used ≡ t.tools_used
  unfolding count_error
  error_tools s t = ground arith

  llm_tools :
      (n : String) (c : Option (LlmCallRecord J F)) (t : Tally F)
      → contains n (count_llm c t).tools_used
        ≡ (contains n (names_of (requested c)) || contains n t.tools_used)
  unfolding count_llm contains
  llm_tools n none t = refl
  llm_tools n (some c) t = contains-add_names n c.tool_calls_requested t.tools_used

  tool_tools :
      (n : String) (c : Option (ToolCallRecord J)) (t : Tally F)
      → contains n (count_tool c t).tools_used
        ≡ (contains n (names_of (optional c)) || contains n t.tools_used)
  unfolding count_tool contains
  tool_tools n none t = refl
  tool_tools n (some c) t = ground (arith, contains-add_sorted n c.tool_name t.tools_used)

  step_tools :
      (n : String) (s : TrajectoryStep J F) (t : Tally F)
      → contains n (count_step s t).tools_used
        ≡ (contains n (names_of (calls_of s)) || contains n t.tools_used)
  unfolding count_step calls_of
  step_tools n s t =
      let counted = count_llm s.llm (count_error s t) in
      ground (
        arith,
        tool_tools n s.tool counted,
        llm_tools n s.llm (count_error s t),
        error_tools s t,
        contains-names n (optional s.tool) (requested s.llm),
      )

  steps_tools :
      (n : String) (ss : List (TrajectoryStep J F)) (t : Tally F)
      → contains n (count_steps ss t).tools_used
        ≡ (contains n (names_of (all_calls ss)) || contains n t.tools_used)
  unfolding count_steps all_calls contains
  steps_tools n [] t = refl
  steps_tools n (s ∷ ss) t = ground (
    arith,
    steps_tools n ss (count_step s t),
    step_tools n s t,
    contains-names n (calls_of s) (all_calls ss),
  )

  -- The metrics that `compute_trajectory_metrics` returns count the steps.
  pub compute_trajectory_metrics-IsCounted :
      (ss : List (TrajectoryStep J F)) → IsCounted ss (compute_trajectory_metrics ss)
  unfolding compute_trajectory_metrics all_calls contains
  compute_trajectory_metrics-IsCounted [] = record {
    steps = refl;
    llm_calls = refl;
    tool_calls = refl;
    tool_results = refl;
    errors = refl;
    tokens = refl;
    tools = λ n. refl;
  }
  compute_trajectory_metrics-IsCounted (s ∷ ss) =
      let adds = steps_add (s ∷ ss) no_tally in
      record {
        steps = refl;
        llm_calls = omega (arith, adds.llm_calls);
        tool_calls = omega (arith, adds.tool_calls);
        tool_results = omega (arith, adds.tool_results);
        errors = omega (arith, adds.errors);
        tokens = omega (arith, adds.tokens);
        tools = λ n. ground (arith, steps_tools n (s ∷ ss) no_tally);
      }
