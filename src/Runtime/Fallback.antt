-- ===== src/Runtime/Fallback.antt =====
-- backend/app/providers/runtime/fallback/fallback_chain.py, `FallbackChain`: which provider is tried
-- next. Python's `sorted` is stable. A custom selector is given where the strategy is CUSTOM.
pub mod Exhaustion
use redops.Base.{
  ℕ, zero, suc, ◌+◌, String, Bool, true, false, Option, none, some, List, [], ◌∷◌, leb, ◌==◌,
  length, get_elem?, if◌then◌else◌, Call, return, raise, Result, ok, raised,
}

pub record FallbackEntry : Type 0 where
  pub provider_name : String
  pub model_id : String
  pub priority : ℕ
  pub max_retries : ℕ

pub record FallbackDecision : Type 0 where
  pub provider_name : String
  pub model_id : String
  pub index : ℕ
  pub is_final : Bool
  pub attempt_count : ℕ

-- `FallbackState` is the index and the counts; a missing count is 0.
pub record FallbackChain : Type 0 where
  pub entries : List FallbackEntry
  pub custom_selector : Option (List FallbackEntry → ℕ → ℕ)
  pub current_index : ℕ
  pub attempt_counts : ℕ → ℕ

-- `ValueError` of a chain without entries, `IndexError` of `self._entries[current]`.
pub data FallbackError : Type 0 where
  value_error index_error : FallbackError

insert : FallbackEntry → List FallbackEntry → List FallbackEntry
insert e [] = e ∷ []
insert e (f ∷ fs) =
    let rest = insert e fs in if leb e.priority f.priority then e ∷ f ∷ fs else f ∷ rest

sorted : List FallbackEntry → List FallbackEntry
unfolding insert
sorted [] = []
sorted (e ∷ es) = insert e (sorted es)

abbrev no_attempts : ℕ → ℕ
no_attempts i = 0

-- `__init__`
unfoldable pub new :
    List FallbackEntry → Option (List FallbackEntry → ℕ → ℕ) → Result FallbackError FallbackChain
unfolding sorted
new [] select = raised value_error
new (e ∷ es) select = ok (record {
  entries = sorted (e ∷ es);
  custom_selector = select;
  current_index = 0;
  attempt_counts = no_attempts;
})

unfoldable pub is_exhausted : FallbackChain → Bool
is_exhausted c = leb (length c.entries) c.current_index

-- `_select_next`
select_next : FallbackChain → ℕ
select_next c = elim c.custom_selector [
  | none ↦ c.current_index
  | some select ↦ select c.entries c.current_index
]

decision_of : FallbackChain → ℕ → Option FallbackEntry → Option FallbackDecision
decision_of c i none = none
decision_of c i (some e) = some (record {
  provider_name = e.provider_name;
  model_id = e.model_id;
  index = i;
  is_final = i + 1 == length c.entries;
  attempt_count = c.attempt_counts i;
})

-- `next`; an index beyond the entries gives none.
unfoldable pub next : FallbackChain → Option FallbackDecision
unfolding is_exhausted select_next decision_of
next c =
    if is_exhausted c
    then none
    else decision_of c (select_next c) (get_elem? c.entries (select_next c))

-- `record_success` and `reset`
unfoldable pub reset : FallbackChain → FallbackChain
reset c = record c { current_index = 0; attempt_counts = no_attempts }

-- `record_failure` after the count, with the entry that is looked up.
advance : Option FallbackEntry → FallbackChain → Call FallbackChain FallbackError (Unit {0})
advance none c = raise c index_error
advance (some e) c =
    return
      (if leb e.max_retries (c.attempt_counts c.current_index)
        then record c { current_index = suc c.current_index }
        else c)
      tt

bump : ℕ → (ℕ → ℕ) → ℕ → ℕ
bump i counts j = if j == i then counts j + 1 else counts j

unfoldable pub record_failure : FallbackChain → Call FallbackChain FallbackError (Unit {0})
unfolding advance bump
record_failure c =
    advance (get_elem? c.entries c.current_index)
      (record c { attempt_counts = bump c.current_index c.attempt_counts })
