-- ===== src/Kernel/Registry.antt =====
-- backend/app/kernel/service_registry/service_registry.py. An instance is known by what its `start`
-- and `stop` do: whether they return or raise, which is a parameter.
pub mod Counting
pub mod Turn
pub mod Filled
pub mod Drain
pub mod Ranked
pub mod Order
pub mod Health
use mathlib.Core.List.{reverse}
use redops.Base.{
  ℕ, zero, suc, ◌+◌, ◌-◌, String, Bool, true, false, not, ◌==◌, if◌then◌else◌, Option, none, some,
  List, [], ◌∷◌, ◌++◌, length, count_if, get, has, put, remove, keys, contains, to_set, Result, ok,
  raised, Call, return, raise,
}

-- `ServiceEntry`; its name is its key.
pub record ServiceEntry : Type 0 where
  pub depends_on : List String
  pub healthy : Bool

abbrev pub Services : Type 0
Services = List (String × ServiceEntry)

-- The `ValueError`s of `register` and of `_resolve_start_order`.
pub data RegistryError : Type 0 where
  already_registered : String → RegistryError
  circular_dependency : RegistryError

unfoldable pub register : String → List String → Services → Call Services RegistryError (Unit {0})
unfolding has put
register name depends_on m =
    if has name m
    then raise m (already_registered name)
    else return (put name (record { depends_on = depends_on; healthy = false }) m) tt

unfoldable pub unregister : String → Services → Services
unfolding remove
unregister name m = remove name m

-- A name's items in the dictionaries `graph` and `in_degree`, which have the same keys in the same
-- order. A degree is only taken down while it is above 0.
pub record Row : Type 0 where
  pub deps : List String
  pub degree : ℕ

abbrev pub Rows : Type 0
Rows = List (String × Row)

-- The two loops that fill `graph` and `in_degree`.
unfoldable pub in_degree : Services → ServiceEntry → Row
unfolding to_set has
in_degree m e =
    let deps = to_set e.depends_on in record { deps = deps; degree = count_if (λ d. has d m) deps }

unfoldable pub fill : Services → Services → Rows
unfolding in_degree
fill m [] = []
fill m ((name, e) ∷ es) = (name, in_degree m e) ∷ fill m es

-- `[name for name, deg in in_degree.items() if deg == 0]`
unfoldable pub roots : Rows → List String
roots [] = []
roots ((name, r) ∷ rs) = let rest = roots rs in if r.degree == 0 then name ∷ rest else rest

-- `if name in deps: in_degree[other] -= 1`
unfoldable pub bump : String → Row → Row
unfolding contains
bump name r = if contains name r.deps then record r { degree = r.degree - 1 } else r

-- `if in_degree[other] == 0`, in the branch where the degree goes down by 1.
unfoldable pub is_freed : String → Row → Bool
unfolding contains
is_freed name r = if contains name r.deps then r.degree == 1 else false

-- The `for` loop over the graph: the degrees after it, and what it appends to the queue.
unfoldable pub visit : String → Rows → Rows × List String
unfolding bump is_freed
visit name [] = ([], [])
visit name ((other, r) ∷ rs) =
    let (rest, freed) = visit name rs in
    ((other, bump name r) ∷ rest, if is_freed name r then other ∷ freed else freed)

-- The `while` loop, with the queue and the order so far; `none` means that the fuel ran out.
unfoldable pub drain : ℕ → Rows → List String → List String → Option (List String)
drain zero rows [] order = some order
drain (suc fuel) rows [] order = some order
drain zero rows (name ∷ queue) order = none
drain (suc fuel) rows (name ∷ queue) order =
    let (rest, freed) = visit name rows in drain fuel rest (queue ++ freed) (order ++ (name ∷ []))

-- `if len(order) != len(self._services): raise …`
unfoldable pub accept : ℕ → List String → Result RegistryError (List String)
accept n order = if length order == n then ok order else raised circular_dependency

-- `_resolve_start_order`. Each turn of the loop takes one name, so the number of services is fuel
-- enough.
unfoldable pub resolve_start_order : Services → Option (Result RegistryError (List String))
unfolding fill roots drain visit accept
resolve_start_order m =
    let rows = fill m m in
    elim (drain (length m) rows (roots rows) []) [
      | none ↦ none
      | some order ↦ some (accept (length m) order)
    ]

-- `entry.healthy = …`
abbrev pub mark : Bool → String → Services → Option ServiceEntry → Services
mark b name m none = m
mark b name m (some e) = put name (record e { healthy = b }) m

abbrev pub set_healthy : Bool → String → Services → Services
set_healthy b name m = mark b name m (get name m)

-- The loop of `start_all` over the order: `starts` says whether `start` of an instance returns.
unfoldable pub start_each : (String → Bool) → List String → Services → Services
unfolding get put
start_each starts [] m = m
start_each starts (name ∷ names) m = start_each starts names (set_healthy (starts name) name m)

-- The loop of `stop_all`: an instance whose `stop` raises stays as healthy as it was.
unfoldable pub stop_each : (String → Bool) → List String → Services → Services
unfolding get put
stop_each stops [] m = m
stop_each stops (name ∷ names) m =
    stop_each stops names (if stops name then set_healthy false name m else m)

-- What both loops do with the order: they run over it, or the error passes.
abbrev along :
    Option (Result RegistryError (List String))
    → (List String → Services)
    → Services
    → Option (Call Services RegistryError (Unit {0}))
along none run m = none
along (some (raised e)) run m = some (raise m e)
along (some (ok order)) run m = some (return (run order) tt)

unfoldable pub start_all :
    (String → Bool) → Services → Option (Call Services RegistryError (Unit {0}))
unfolding start_each resolve_start_order
start_all starts m = along (resolve_start_order m) (λ order. start_each starts order m) m

-- `for name in reversed(order)`
unfoldable pub stop_all :
    (String → Bool) → Services → Option (Call Services RegistryError (Unit {0}))
unfolding stop_each resolve_start_order
stop_all stops m = along (resolve_start_order m) (λ order. stop_each stops (reverse order) m) m

unfoldable pub is_healthy : String → Services → Bool
unfolding get
is_healthy name m = elim (get name m) [ none ↦ false | some e ↦ e.healthy ]
