-- ===== src/Agents/Tools.antt =====
-- backend/app/agents/domain/tool_execution.py: the registry of an agent's tools and the executor. A
-- tool's function is of an abstract type `T`, and what a call of it does is a parameter. What no method
-- reads of a definition is left out.
pub mod Paired
use redops.Base.{
  ℕ, String, Bool, true, false, not, ◌&&◌, is_some, if◌then◌else◌, Option, none, some, List, [],
  ◌∷◌, length, get, has, put, remove, keys, Call, return, raise, Result, ok, raised,
}

-- A JSON value as an argument list: `{}`, whether the value can be iterated over, `name in value`,
-- `json.loads`, where `none` is a `JSONDecodeError`, and whether a value is callable.
pub record Arguments (J : Type 0) : Type 0 where
  pub empty : J
  pub is_iterable : J → Bool
  pub member : String → J → Bool
  pub loads : String → Option J

-- `ToolDefinition`, with the list `parameters.get("required", [])`.
pub record ToolDefinition : Type 0 where
  pub name : String
  pub required : List String

pub record ToolRegistry (T : Type 0) : Type 0 where
  pub tools : List (String × ToolDefinition)
  pub functions : List (String × T)

-- The two messages of a `ToolRegistrationError`.
pub data RegistrationError : Type 0 where
  already_registered not_callable : String → RegistrationError

-- The texts of `ToolExecutionResult.error`.
pub data ToolError : Type 0 where
  unknown_tool missing_argument no_function timed_out execution_failed : String → ToolError

pub record ToolExecutionResult : Type 0 where
  pub tool_name : String
  pub result : String
  pub is_error : Bool
  pub latency_ms : ℕ
  pub error : Option ToolError

-- What calling a tool's function does: it returns, or raises a `ToolExecutionTimeoutError` or another
-- exception with a text.
pub data Outcome : Type 0 where
  returns timeout raises : String → Outcome

-- A value that cannot be iterated over raises a `TypeError`.
pub data TypeError : Type 0 where
  not_iterable : TypeError

unfoldable pub is_success : ToolExecutionResult → Bool
is_success r = not r.is_error && not (is_some r.error)

module _ {T : Type 0} where
  abbrev pub empty_registry : ToolRegistry T
  empty_registry = record { tools = []; functions = [] }

  unfoldable pub register :
      (callable : T → Bool)
      → ToolDefinition
      → T
      → ToolRegistry T
      → Call (ToolRegistry T) RegistrationError (Unit {0})
  register callable d f r =
      if has d.name r.tools
      then raise r (already_registered d.name)
      else if not (callable f)
      then raise r (not_callable d.name)
      else return (record { tools = put d.name d r.tools; functions = put d.name f r.functions }) tt

  unfoldable pub unregister : String → ToolRegistry T → ToolRegistry T
  unregister name r = record { tools = remove name r.tools; functions = remove name r.functions }

  unfoldable pub has_tool : String → ToolRegistry T → Bool
  has_tool name r = has name r.tools

-- The loop over the required names; the loop over the arguments does nothing, but iterates over them.
unfoldable pub check_required :
    {J : Type 0} → Arguments J → J → List String → Result TypeError (Option ToolError)
check_required js args [] = if js.is_iterable args then ok none else raised not_iterable
check_required js args (name ∷ names) =
    let rest = check_required js args names in
    if not (js.is_iterable args)
    then raised not_iterable
    else if js.member name args
    then rest
    else ok (some (missing_argument name))

-- A result with `is_error=True`, and the time that has passed.
abbrev pub refused : String → ℕ → ToolError → ToolExecutionResult
refused name elapsed e = record {
  tool_name = name;
  result = "";
  is_error = true;
  latency_ms = elapsed;
  error = some e;
}

abbrev pub outcome : String → ℕ → Outcome → ToolExecutionResult
outcome name elapsed (returns text) = record {
  tool_name = name;
  result = text;
  is_error = false;
  latency_ms = elapsed;
  error = none;
}
outcome name elapsed (timeout text) = refused name elapsed (timed_out text)
outcome name elapsed (raises text) = refused name elapsed (execution_failed text)

module _ {T J : Type 0} (js : Arguments J) where
  unfoldable pub validate_tool_args :
      String → J → ToolRegistry T → Result TypeError (Option ToolError)
  unfolding check_required
  validate_tool_args name args r = elim (get name r.tools) [
    | none ↦ ok (some (unknown_tool name))
    | some d ↦ check_required js args d.required
  ]

  -- `call` is what a call of a function with the arguments does, and `elapsed` its time.
  abbrev pub call_function : (T → J → Outcome) → ℕ → String → J → Option T → ToolExecutionResult
  call_function call elapsed name args none = refused name 0 (no_function name)
  call_function call elapsed name args (some f) = outcome name elapsed (call f args)

  unfoldable pub execute :
      (T → J → Outcome) → ℕ → String → J → ToolRegistry T → Result TypeError ToolExecutionResult
  unfolding validate_tool_args
  execute call elapsed name args r = elim (validate_tool_args name args r) [
    | raised e ↦ raised e
    | ok (some e) ↦ ok (refused name 0 e)
    | ok none ↦ ok (call_function call elapsed name args (get name r.functions))
  ]
