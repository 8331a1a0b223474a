-- ===== src/Kernel/Registry/Counting.antt =====
-- What the loop of `_resolve_start_order` keeps.
use mathlib.Core.Path.{fun_ext}
use redops.Base.{
  ◌+◌, ◌<◌, String, Bool, true, false, not, ◌&&◌, ◌==◌, if◌then◌else◌, none, some, List, [], ◌∷◌,
  ◌++◌, length, count_if, get, has, keys, contains, IsDistinct, Bool-cases, inl, inr, contains-keys,
  All, ◌≡◌, refl, arith, eq_iff, str_eq, contains-append, count_if-except,
}
use redops.Kernel.Registry.{Services, Row, Rows, bump, is_freed, visit}

-- A dependency that is registered and has not been taken from the queue.
unfoldable pub is_open : Services → List String → String → Bool
is_open m order d = has d m && not (contains d order)

abbrev pub waits : String × Row → Bool
waits (name, r) = not (r.degree == 0)

pub get-visit :
    (k name : String) (rows : Rows)
    → get k (visit name rows).0 ≡ elim (get k rows) [ none ↦ none | some r ↦ some (bump name r) ]
unfolding get visit
get-visit k name [] = refl
get-visit k name ((j, r) ∷ rows) = ground (arith, get-visit k name rows)

pub keys-visit : (name : String) (rows : Rows) → keys (visit name rows).0 ≡ keys rows
unfolding visit
keys-visit name [] = refl
keys-visit name ((j, r) ∷ rows) = ground (arith, keys-visit name rows)

pub looked_up :
    (k name : String) (rows : Rows) (r' : Row)
    → get k (visit name rows).0 ≡ some r'
    → (r : Row) × (get k rows ≡ some r) × (r' ≡ bump name r)
unfolding get visit
looked_up k name [] r' h = cc
looked_up k name ((j, r) ∷ rows) r' h = elim (Bool-cases (str_eq j k)) [
  | inl same ↦ (r, rw same, ground arith)
  | inr other ↦ rw other (looked_up k name rows r' (rw other at h))
]

pub contains-freed :
    (k name : String) (rows : Rows)
    → IsDistinct (keys rows)
    → contains k (visit name rows).1 ≡ elim (get k rows) [ none ↦ false | some r ↦ is_freed name r ]
unfolding get has visit contains
contains-freed k name [] h = refl
contains-freed k name ((j, r) ∷ rows) h =
    ground (arith, contains-freed k name rows h.1, contains-keys k rows, eq_iff j k)

pub freed-IsDistinct :
    (name : String) (rows : Rows) → IsDistinct (keys rows) → IsDistinct (visit name rows).1
unfolding visit has
freed-IsDistinct name [] h = tt
freed-IsDistinct name ((j, r) ∷ rows) h = elim (Bool-cases (is_freed name r)) [
  | inl freed ↦ rw freed (
    ground (arith, contains-freed j name rows h.1, contains-keys j rows),
    freed-IsDistinct name rows h.1,
  )
  | inr kept ↦ rw kept (freed-IsDistinct name rows h.1)
]

-- Each freed name has stopped waiting.
pub waits-visit :
    (name : String) (rows : Rows)
    → All (λ (row : String × Row). contains name row.1.deps ≡ true → 0 < row.1.degree) rows
    → count_if waits (visit name rows).0 + length (visit name rows).1 ≡ count_if waits rows
unfolding visit bump is_freed
waits-visit name [] h = refl
waits-visit name ((j, r) ∷ rows) h = ground (arith, waits-visit name rows h.1, h.0)

pub is_open-snoc :
    (m : Services) (order : List String) (name d : String)
    → is_open m (order ++ (name ∷ [])) d ≡ (is_open m order d && not (str_eq name d))
unfolding is_open contains
is_open-snoc m order name d = ground (arith, contains-append d order (name ∷ []))

-- A turn of the loop closes one dependency of each row that has the name.
pub count_if-bump :
    (m : Services) (order : List String) (name : String) (deps : List String)
    → IsDistinct deps
    → is_open m order name ≡ true
    → count_if (is_open m (order ++ (name ∷ []))) deps + (if contains name deps then 1 else 0)
      ≡ count_if (is_open m order) deps
count_if-bump m order name deps h opened =
    rw (fun_ext (is_open-snoc m order name)) (count_if-except (is_open m order) name deps h opened)
