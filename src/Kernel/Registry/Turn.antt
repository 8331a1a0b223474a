-- ===== src/Kernel/Registry/Turn.antt =====
-- A turn of the loop of `_resolve_start_order` keeps what is known of its degrees and its queue.
use redops.Base.{
  ◌+◌, ◌<◌, String, true, false, ◌||◌, ◌==◌, Option, none, some, List, [], ◌∷◌, ◌++◌, length,
  length-append, count_if, get, has, keys, contains, IsDistinct, All, ◌≡◌, refl, arith, eq_iff,
  contains-append, append-IsDistinct, contains-keys, to_set, sym, ◌∙◌,
}
use redops.Kernel.Registry.{ServiceEntry, Services, Row, Rows, bump, is_freed, visit}
use redops.Kernel.Registry.Counting.{
  is_open, waits, looked_up, get-visit, keys-visit, contains-freed, freed-IsDistinct, waits-visit,
  count_if-bump,
}

-- The degree of a name counts its dependencies that are registered and have not been taken, and a
-- name is in the queue or the order exactly where its degree is 0.
pub record IsCounted (m : Services) (rows : Rows) (queue order : List String) : Type 0 where
  pub names : keys rows ≡ keys m
  pub deps :
      (k : String) (e : ServiceEntry)
      → get k m ≡ some e
      → (r : Row) × (get k rows ≡ some r) × (r.deps ≡ to_set e.depends_on)
  pub distinct : (k : String) (r : Row) → get k rows ≡ some r → IsDistinct r.deps
  pub counted :
      (k : String) (r : Row) → get k rows ≡ some r → r.degree ≡ count_if (is_open m order) r.deps
  pub placed :
      (k : String) (r : Row)
      → get k rows ≡ some r
      → (contains k order || contains k queue) ≡ (r.degree == 0)
  pub known : (k : String) → (contains k order || contains k queue) ≡ true → has k m ≡ true
  pub apart : (k : String) → contains k queue ≡ true → contains k order ≡ false
  pub once : IsDistinct order
  pub queued_once : IsDistinct queue
  pub total : length order + length queue + count_if waits rows ≡ length m

module _ (m : Services) (rows : Rows) (queue order : List String) (name : String)
    (single : IsDistinct (keys m)) (h : IsCounted m rows (name ∷ queue) order) where
  open h use {names, deps, distinct, counted, placed, known, apart, once, queued_once, total}

  abbrev rest : Rows
  rest = (visit name rows).0

  abbrev freed : List String
  freed = (visit name rows).1

  abbrev taken : List String
  taken = order ++ (name ∷ [])

  rows_single : IsDistinct (keys rows)
  rows_single = rw names single

  name_open : is_open m order name ≡ true
  unfolding is_open contains
  name_open = ground (arith, known name, apart name, eq_iff name name)

  counted-bump :
      (k : String) (r : Row)
      → get k rows ≡ some r
      → (bump name r).degree ≡ count_if (is_open m taken) (bump name r).deps
  unfolding bump
  counted-bump k r e =
      ground (arith, counted k r e, count_if-bump m order name r.deps (distinct k r e) name_open)

  degree_pos :
      (k : String) (r : Row) → get k rows ≡ some r → contains name r.deps ≡ true → 0 < r.degree
  degree_pos k r e c =
      ground (arith, counted k r e, count_if-bump m order name r.deps (distinct k r e) name_open)

  placed-bump :
      (k : String) (r : Row)
      → get k rows ≡ some r
      → (contains k taken || contains k (queue ++ freed)) ≡ ((bump name r).degree == 0)
  unfolding bump is_freed contains
  placed-bump k r e = ground (
    arith,
    placed k r e,
    degree_pos k r e,
    contains-append k order (name ∷ []),
    contains-append k queue freed,
    contains-freed k name rows rows_single,
    eq_iff name k,
  )

  freed_waited :
      (k : String)
      → contains k freed ≡ true
      → (r : Row) × (get k rows ≡ some r) × (contains name r.deps ≡ true)
  unfolding is_freed
  freed_waited k c =
      freed_row k (get k rows) refl (sym (contains-freed k name rows rows_single) ∙ c)
    where
      freed_row :
          (k : String) (found : Option Row)
          → get k rows ≡ found
          → (elim found [ none ↦ false | some r ↦ is_freed name r ]) ≡ true
          → (r : Row) × (get k rows ≡ some r) × (contains name r.deps ≡ true)
      freed_row k none e c = cc
      freed_row k (some r) e c = (r, e, ground arith)

  freed_apart :
      (k : String)
      → contains k freed ≡ true
      → (contains k order ≡ false) × (contains k (name ∷ queue) ≡ false)
  freed_apart k c =
      let (r, e, dep) = freed_waited k c in ground (arith, placed k r e, degree_pos k r e dep)

  freed_known : (k : String) → contains k freed ≡ true → has k m ≡ true
  unfolding has
  freed_known k c =
      let (r, e, dep) = freed_waited k c in
      ground (arith, contains-keys k rows, contains-keys k m, names)

  bumped-IsDistinct : (k : String) (r : Row) → get k rows ≡ some r → IsDistinct (bump name r).deps
  unfolding bump
  bumped-IsDistinct k r e = ground (arith, distinct k r e)

  All-pos :
      (rs : Rows)
      → ((k : String) (r : Row) → get k rs ≡ some r → contains name r.deps ≡ true → 0 < r.degree)
      → IsDistinct (keys rs)
      → All (λ (row : String × Row). contains name row.1.deps ≡ true → 0 < row.1.degree) rs
  unfolding get has
  All-pos [] hp hd = tt
  All-pos ((k, r) ∷ rs) hp hd = (
    hp k r (ground (arith, eq_iff k k)),
    All-pos rs (λ j r' e. hp j r' (ground (arith, eq_iff k j, contains-keys j rs))) hd.1,
  )

  bump-deps : (r : Row) → (bump name r).deps ≡ r.deps
  unfolding bump
  bump-deps r = ground arith

  known-visit :
      (k : String) → (contains k taken || contains k (queue ++ freed)) ≡ true → has k m ≡ true
  unfolding contains
  known-visit k c = ground (
    arith,
    known k,
    freed_known k,
    contains-append k order (name ∷ []),
    contains-append k queue freed,
  )

  apart-visit : (k : String) → contains k (queue ++ freed) ≡ true → contains k taken ≡ false
  unfolding contains
  apart-visit k c = ground (
    arith,
    apart k,
    freed_apart k,
    eq_iff name k,
    contains-append k order (name ∷ []),
    contains-append k queue freed,
  )

  order_apart : (k : String) → contains k order ≡ true → contains k (name ∷ []) ≡ false
  unfolding contains
  order_apart k c = ground (arith, apart k, eq_iff name k)

  queue_apart : (k : String) → contains k queue ≡ true → contains k freed ≡ false
  unfolding contains
  queue_apart k c = ground (arith, freed_apart k)

  pub visit-IsCounted : IsCounted m rest (queue ++ freed) taken
  unfolding contains
  visit-IsCounted = record {
    names = keys-visit name rows ∙ names;
    deps = λ k e found.
        let (r, at, same) = deps k e found in
        (bump name r, (get-visit k name rows ∙ (rw at)), bump-deps r ∙ same);
    distinct = λ k r' e.
        let (r, at, same) = looked_up k name rows r' e in rw same (bumped-IsDistinct k r at);
    counted =
        λ k r' e. let (r, at, same) = looked_up k name rows r' e in rw same (counted-bump k r at);
    placed =
        λ k r' e. let (r, at, same) = looked_up k name rows r' e in rw same (placed-bump k r at);
    known = known-visit;
    apart = apart-visit;
    once = append-IsDistinct order (name ∷ []) once (refl, tt) order_apart;
    queued_once =
        append-IsDistinct queue freed queued_once.1 (freed-IsDistinct name rows rows_single)
          queue_apart;
    total = omega (
      arith,
      total,
      waits-visit name rows (All-pos rows degree_pos rows_single),
      length-append order (name ∷ []),
      length-append queue freed,
    );
  }
