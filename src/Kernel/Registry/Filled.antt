-- ===== src/Kernel/Registry/Filled.antt =====
-- The dictionaries `graph` and `in_degree` and the queue before the loop of `_resolve_start_order`.
use mathlib.Core.Path.{fun_ext}
use redops.Base.{
  suc, ◌+◌, String, true, false, ◌||◌, ◌==◌, none, some, [], ◌∷◌, length, count_if, get, has, keys,
  contains, IsDistinct, Bool-cases, inl, inr, ◌≡◌, refl, arith, eq_iff, str_eq, contains-keys,
  to_set-IsDistinct, ap, ◌∙◌,
}
use redops.Kernel.Registry.{ServiceEntry, Services, Row, Rows, in_degree, fill, roots}
use redops.Kernel.Registry.Counting.{is_open, waits}
use redops.Kernel.Registry.Turn.{IsCounted}

module _ (m : Services) where
  keys-fill : (es : Services) → keys (fill m es) ≡ keys es
  unfolding fill
  keys-fill [] = refl
  keys-fill ((k, e) ∷ es) = ground (arith, keys-fill es)

  get-fill :
      (k : String) (es : Services)
      → get k (fill m es) ≡ elim (get k es) [ none ↦ none | some e ↦ some (in_degree m e) ]
  unfolding fill get
  get-fill k [] = refl
  get-fill k ((j, e) ∷ es) = ground (arith, get-fill k es)

  filled :
      (k : String) (es : Services) (r : Row)
      → get k (fill m es) ≡ some r
      → (e : ServiceEntry) × (get k es ≡ some e) × (r ≡ in_degree m e)
  unfolding fill get
  filled k [] r h = cc
  filled k ((j, e) ∷ es) r h = elim (Bool-cases (str_eq j k)) [
    | inl same ↦ (e, rw same, ground arith)
    | inr other ↦ rw other (filled k es r (rw other at h))
  ]

  length-fill : (es : Services) → length (fill m es) ≡ length es
  unfolding fill
  length-fill [] = refl
  length-fill ((k, e) ∷ es) = ap suc (length-fill es)

contains-roots :
    (k : String) (rows : Rows)
    → IsDistinct (keys rows)
    → contains k (roots rows) ≡ elim (get k rows) [ none ↦ false | some r ↦ r.degree == 0 ]
unfolding get has roots contains
contains-roots k [] h = refl
contains-roots k ((j, r) ∷ rows) h =
    ground (arith, contains-roots k rows h.1, contains-keys k rows, eq_iff j k)

roots-IsDistinct : (rows : Rows) → IsDistinct (keys rows) → IsDistinct (roots rows)
unfolding roots has
roots-IsDistinct [] h = tt
roots-IsDistinct ((j, r) ∷ rows) h = elim (Bool-cases (r.degree == 0)) [
  | inl root ↦
      rw root
        (ground (arith, contains-roots j rows h.1, contains-keys j rows), roots-IsDistinct rows h.1)
  | inr other ↦ rw other (roots-IsDistinct rows h.1)
]

waits-roots : (rows : Rows) → length (roots rows) + count_if waits rows ≡ length rows
unfolding roots
waits-roots [] = refl
waits-roots ((j, r) ∷ rows) = ground (arith, waits-roots rows)

module _ (m : Services) (single : IsDistinct (keys m)) where
  abbrev rows : Rows
  rows = fill m m

  rows_single : IsDistinct (keys rows)
  rows_single = rw (keys-fill m m) single

  is_open-nil : (d : String) → is_open m [] d ≡ has d m
  unfolding is_open contains
  is_open-nil d = ground arith

  counted-fill :
      (k : String) (r : Row) → get k rows ≡ some r → r.degree ≡ count_if (is_open m []) r.deps
  unfolding in_degree
  counted-fill k r h = let (e, at, same) = filled m k m r h in rw (fun_ext is_open-nil) (rw same)

  IsDistinct-fill : (k : String) (r : Row) → get k rows ≡ some r → IsDistinct r.deps
  unfolding in_degree
  IsDistinct-fill k r h =
      let (e, at, same) = filled m k m r h in rw same (to_set-IsDistinct e.depends_on)

  placed-fill :
      (k : String) (r : Row)
      → get k rows ≡ some r
      → (contains k [] || contains k (roots rows)) ≡ (r.degree == 0)
  unfolding contains
  placed-fill k r h = ground (arith, contains-roots k rows rows_single)

  known-fill : (k : String) → (contains k [] || contains k (roots rows)) ≡ true → has k m ≡ true
  unfolding contains has
  known-fill k h = ground (arith, contains-roots k rows rows_single, get-fill m k m)

  pub fill-IsCounted : IsCounted m rows (roots rows) []
  unfolding contains in_degree
  fill-IsCounted = record {
    names = keys-fill m m;
    deps = λ k e found. (in_degree m e, get-fill m k m ∙ (rw found), refl);
    distinct = IsDistinct-fill;
    counted = counted-fill;
    placed = placed-fill;
    known = known-fill;
    apart = λ k h. refl;
    once = tt;
    queued_once = roots-IsDistinct rows rows_single;
    total = omega (arith, waits-roots rows, length-fill m m);
  }
