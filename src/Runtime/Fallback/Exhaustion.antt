-- ===== src/Runtime/Fallback/Exhaustion.antt =====
-- How many failures a chain of providers takes, and which provider it begins with.
use redops.Base.{
  ℕ, zero, suc, ◌+◌, ◌-◌, ◌≤◌, ◌<◌, ◌≡◌, refl, Bool, true, false, Option, none, some, List, [], ◌∷◌,
  leb, length, get_elem?, max, arith, ok, ◌⊎◌, inl, inr, ◌&&◌,
}
use redops.Runtime.Fallback.{
  FallbackEntry, FallbackChain, new, is_exhausted, record_failure, sorted, insert,
}

-- The failures that an entry takes.
abbrev pub share : FallbackEntry → ℕ
share e = max 1 e.max_retries

-- The failures that the entries from an index on take.
unfoldable pub capacity : List FallbackEntry → ℕ → ℕ
capacity [] i = 0
capacity (e ∷ es) zero = share e + capacity es zero
capacity (e ∷ es) (suc i) = capacity es i

capacity_split :
    (es : List FallbackEntry) (i : ℕ) (e : FallbackEntry)
    → get_elem? es i ≡ some e
    → capacity es i ≡ share e + capacity es (suc i)
unfolding capacity
capacity_split [] i e h = absurd cc
capacity_split (x ∷ []) zero e h = ground arith
capacity_split (x ∷ y ∷ xs) zero e h = ground arith
capacity_split (x ∷ xs) (suc i) e h = capacity_split xs i e h

get_elem?_cases :
    (es : List FallbackEntry) (i : ℕ)
    → (length es ≤ i) × (get_elem? es i ≡ none)
      ⊎ (i < length es) × ((e : FallbackEntry) × (get_elem? es i ≡ some e))
get_elem?_cases [] i = inl (omega arith, refl)
get_elem?_cases (x ∷ xs) zero = inr (omega arith, (x, refl))
get_elem?_cases (x ∷ xs) (suc i) = elim (get_elem?_cases xs i) [
  | inl (l, e) ↦ inl (omega arith, e)
  | inr (l, (e, h)) ↦ inr (omega arith, (e, h))
]

capacity_past : (es : List FallbackEntry) (i : ℕ) → length es ≤ i → capacity es i ≡ 0
unfolding capacity
capacity_past [] i h = refl
capacity_past (x ∷ xs) zero h = absurd (omega arith)
capacity_past (x ∷ xs) (suc i) h = capacity_past xs i (omega arith)

-- The entries after the current one are untried, and the current one has failures left.
record IsFair (c : FallbackChain) : Type 0 where
  later : (j : ℕ) → c.current_index < j → c.attempt_counts j ≡ 0
  within :
      (e : FallbackEntry)
      → get_elem? c.entries c.current_index ≡ some e
      → c.attempt_counts c.current_index < share e

-- The failures that the chain still takes.
left : FallbackChain → ℕ
left c = capacity c.entries c.current_index - c.attempt_counts c.current_index

unfoldable pub fail_all : ℕ → FallbackChain → FallbackChain
fail_all zero c = c
fail_all (suc n) c = fail_all n (record_failure c).self

failure_left :
    (c : FallbackChain) (e : FallbackEntry)
    → get_elem? c.entries c.current_index ≡ some e
    → IsFair c
    → left (record_failure c).self + 1 ≡ left c
unfolding left record_failure
failure_left c e h f = ground (
  arith,
  capacity_split c.entries c.current_index e h,
  f.within e h,
  f.later (suc c.current_index),
)

failure-IsFair :
    (c : FallbackChain) (e : FallbackEntry)
    → get_elem? c.entries c.current_index ≡ some e
    → IsFair c
    → IsFair (record_failure c).self
unfolding record_failure
failure-IsFair c e h f = record {
  later = λ j l. ground (arith, f.later j);
  within = λ e' h'. ground (arith, f.within e h, f.later (suc c.current_index));
}

failure_past :
    (c : FallbackChain)
    → get_elem? c.entries c.current_index ≡ none
    → ((record_failure c).self.entries ≡ c.entries)
      × ((record_failure c).self.current_index ≡ c.current_index)
unfolding record_failure
failure_past c h = ground arith

fail_all_past :
    (n : ℕ) (c : FallbackChain)
    → get_elem? c.entries c.current_index ≡ none
    → is_exhausted (fail_all n c) ≡ is_exhausted c
unfolding fail_all is_exhausted
fail_all_past zero c h = refl
fail_all_past (suc n) c h =
    let (same, stays) = failure_past c h in ground (arith, fail_all_past n (record_failure c).self)

past_done :
    (c : FallbackChain)
    → length c.entries ≤ c.current_index
    → (is_exhausted c ≡ true) × (left c ≡ 0)
unfolding is_exhausted left
past_done c l = ground (arith, capacity_past c.entries c.current_index)

current_left :
    (c : FallbackChain) (e : FallbackEntry)
    → get_elem? c.entries c.current_index ≡ some e
    → c.current_index < length c.entries
    → IsFair c
    → (is_exhausted c ≡ false) × (0 < left c)
unfolding is_exhausted left
current_left c e h l f = ground (arith, capacity_split c.entries c.current_index e h, f.within e h)

fail_all-left :
    (n : ℕ) (c : FallbackChain) → IsFair c → is_exhausted (fail_all n c) ≡ leb (left c) n
unfolding fail_all
fail_all-left zero c f = elim (get_elem?_cases c.entries c.current_index) [
  | inl (l, h) ↦ ground (arith, past_done c l)
  | inr (l, (e, h)) ↦ ground (arith, current_left c e h l f)
]
fail_all-left (suc n) c f = elim (get_elem?_cases c.entries c.current_index) [
  | inl (l, h) ↦ ground (arith, past_done c l, fail_all_past (suc n) c h)
  | inr (l, (e, h)) ↦ ground (
    arith,
    current_left c e h l f,
    failure_left c e h f,
    fail_all-left n (record_failure c).self (failure-IsFair c e h f),
  )
]

capacity-insert :
    (e : FallbackEntry) (es : List FallbackEntry)
    → capacity (insert e es) 0 ≡ share e + capacity es 0
unfolding capacity insert
capacity-insert e [] = refl
capacity-insert e (x ∷ []) = ground arith
capacity-insert e (x ∷ y ∷ xs) = ground (arith, capacity-insert e (y ∷ xs))

capacity-sorted : (es : List FallbackEntry) → capacity (sorted es) 0 ≡ capacity es 0
unfolding capacity sorted
capacity-sorted [] = refl
capacity-sorted (x ∷ []) = ground (arith, capacity-insert x [])
capacity-sorted (x ∷ y ∷ xs) =
    ground (arith, capacity-insert x (sorted (y ∷ xs)), capacity-sorted (y ∷ xs))

-- A new chain is exhausted by as many failures as its entries take together, `max_retries` of each
-- and one at least, and by no fewer.
pub fail_all_exhausts :
    (es : List FallbackEntry) (select : Option (List FallbackEntry → ℕ → ℕ)) (c : FallbackChain)
    (n : ℕ)
    → new es select ≡ ok c
    → is_exhausted (fail_all n c) ≡ leb (capacity es 0) n
unfolding new left
fail_all_exhausts [] select c n h = absurd cc
fail_all_exhausts (e ∷ es) select c n h =
    let entries : c.entries ≡ sorted (e ∷ es) = ground arith in
    let at_start : c.current_index ≡ 0 = ground arith in
    let untried : (j : ℕ) → c.attempt_counts j ≡ 0 = λ j. ground arith in
    let fair : IsFair c = record {
      later = λ j l. untried j;
      within = λ x h. ground (arith, untried c.current_index);
    } in
    ground (arith, fail_all-left n c fair, capacity-sorted (e ∷ es), untried 0)

at_most_first : ℕ → List FallbackEntry → Bool
at_most_first k [] = true
at_most_first k (f ∷ fs) = leb k f.priority

-- In ascending order of the priority.
unfoldable pub is_ascending : List FallbackEntry → Bool
unfolding at_most_first
is_ascending [] = true
is_ascending (e ∷ es) = at_most_first e.priority es && is_ascending es

at_most_first-insert :
    (k : ℕ) (e : FallbackEntry) (es : List FallbackEntry)
    → k ≤ e.priority
    → at_most_first k es ≡ true
    → at_most_first k (insert e es) ≡ true
unfolding at_most_first insert
at_most_first-insert k e [] l h = ground arith
at_most_first-insert k e (x ∷ xs) l h = ground arith

is_ascending-insert :
    (e : FallbackEntry) (es : List FallbackEntry)
    → is_ascending es ≡ true
    → is_ascending (insert e es) ≡ true
unfolding is_ascending insert
is_ascending-insert e [] h = refl
is_ascending-insert e (x ∷ xs) h =
    ground (arith, is_ascending-insert e xs, at_most_first-insert x.priority e xs)

is_ascending-sorted : (es : List FallbackEntry) → is_ascending (sorted es) ≡ true
unfolding is_ascending sorted
is_ascending-sorted [] = refl
is_ascending-sorted (e ∷ es) = is_ascending-insert e (sorted es) (is_ascending-sorted es)

-- A new chain holds its entries in ascending order of their priority.
pub new_ascending :
    (es : List FallbackEntry) (select : Option (List FallbackEntry → ℕ → ℕ)) (c : FallbackChain)
    → new es select ≡ ok c
    → is_ascending c.entries ≡ true
unfolding new
new_ascending [] select c h = absurd cc
new_ascending (e ∷ es) select c h = ground (arith, is_ascending-sorted (e ∷ es))
