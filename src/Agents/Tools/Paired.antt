-- ===== src/Agents/Tools/Paired.antt =====
-- A registry over every sequence of calls, and what executing a tool of it does.
use redops.Base.{
  ℕ, String, Bool, true, none, some, List, [], ◌∷◌, get, has, get-put, get-remove, has-some, ◌≡◌,
  refl, arith, ok, sym, ◌∙◌,
}
use redops.Agents.Tools.{
  Arguments, ToolDefinition, ToolRegistry, Outcome, empty_registry, register, unregister,
  check_required, outcome, execute,
}

pub data Request (T : Type 0) : Type 0 where
  to_register : (callable : T → Bool) → ToolDefinition → T → Request T
  to_unregister : String → Request T

module _ {T : Type 0} where
  unfoldable pub serve : Request T → ToolRegistry T → ToolRegistry T
  unfolding register unregister
  serve (to_register callable d f) r = (register callable d f r).self
  serve (to_unregister name) r = unregister name r

  unfoldable pub serve_all : List (Request T) → ToolRegistry T → ToolRegistry T
  unfolding serve
  serve_all [] r = r
  serve_all (q ∷ qs) r = serve_all qs (serve q r)

  -- Every definition has a function, and every function a definition.
  abbrev IsPaired : ToolRegistry T → Type 0
  IsPaired r = (k : String) → has k r.tools ≡ has k r.functions

  serve-IsPaired : (q : Request T) (r : ToolRegistry T) → IsPaired r → IsPaired (serve q r)
  unfolding serve has
  serve-IsPaired (to_register callable d f) r h k =
      ground (arith, h k, get-put d.name k d r.tools, get-put d.name k f r.functions)
  serve-IsPaired (to_unregister name) r h k =
      ground (arith, h k, get-remove name k r.tools, get-remove name k r.functions)

  serve_all-IsPaired :
      (qs : List (Request T)) (r : ToolRegistry T) → IsPaired r → IsPaired (serve_all qs r)
  unfolding serve_all
  serve_all-IsPaired [] r h = h
  serve_all-IsPaired (q ∷ qs) r h = serve_all-IsPaired qs (serve q r) (serve-IsPaired q r h)

module _ {J : Type 0} (js : Arguments J) where
  -- Every required argument is given.
  abbrev pub Given : J → List String → Type 0
  Given args [] = Unit
  Given args (name ∷ names) = (js.member name args ≡ true) × Given args names

  checked :
      (args : J) (names : List String)
      → js.is_iterable args ≡ true
      → Given args names
      → check_required js args names ≡ ok none
  unfolding check_required
  checked args [] it h = ground arith
  checked args (name ∷ names) it h = ground (arith, checked args names it h.1)

module _ {T J : Type 0} (js : Arguments J) (qs : List (Request T)) (call : T → J → Outcome)
    (elapsed : ℕ) (name : String) (args : J) where
  abbrev registry : ToolRegistry T
  registry = serve_all qs empty_registry

  -- Whatever was registered and unregistered, a tool of the registry whose required arguments are
  -- given is called, and the result is that of the call.
  pub serve_all-execute :
      (d : ToolDefinition)
      → get name registry.tools ≡ some d
      → js.is_iterable args ≡ true
      → Given js args d.required
      → (f : T) × (get name registry.functions ≡ some f)
        × (execute js call elapsed name args registry ≡ ok (outcome name elapsed (call f args)))
  unfolding execute has
  serve_all-execute d found it given =
      let paired = serve_all-IsPaired qs empty_registry (λ k. refl) name in
      let (f, at) = has-some name registry.functions (sym paired ∙ ground arith) in
      (f, at, ground (arith, checked js args d.required it given))
