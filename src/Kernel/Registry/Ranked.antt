-- ===== src/Kernel/Registry/Ranked.antt =====
-- What is left when the loop of `_resolve_start_order` has ended, where the dependencies have no cycle.
use mathlib.Core.Bool.{true≢false}
use redops.Base.{
  ℕ, zero, suc, ◌<◌, String, Bool, true, false, ◌==◌, some, List, [], ◌∷◌, count_if, get, has, keys,
  contains, IsDistinct, Bool-cases, inl, inr, ◌≡◌, ◌≢◌, refl, arith, eq_iff, contains-keys,
  has-some, contains-to_set, to_set, ap, sym, ◌∙◌,
}
use redops.Kernel.Registry.{ServiceEntry, Services, Row, Rows}
use redops.Kernel.Registry.Counting.{is_open, waits}
use redops.Kernel.Registry.Turn.{IsCounted}

-- Ranks that fall along the dependencies: there are some where there is no cycle.
pub record Ranking (m : Services) : Type 0 where
  pub rank : String → ℕ
  pub falls :
      (k : String) (e : ServiceEntry) (d : String)
      → get k m ≡ some e
      → contains d e.depends_on ≡ true
      → has d m ≡ true
      → rank d < rank k

count_if_some :
    (p : String → Bool) (xs : List String)
    → count_if p xs ≢ 0
    → (d : String) × (contains d xs ≡ true) × (p d ≡ true)
unfolding contains
count_if_some p [] h = absurd (h refl)
count_if_some p (x ∷ xs) h = elim (Bool-cases (p x)) [
  | inl yes_x ↦ (x, ground (arith, eq_iff x x), yes_x)
  | inr no_x ↦ let (d, c, pd) = count_if_some p xs (ground arith) in (d, ground arith, pd)
]

waits-some :
    (rows : Rows)
    → IsDistinct (keys rows)
    → count_if waits rows ≢ 0
    → (k : String) × (r : Row) × (get k rows ≡ some r) × (r.degree ≢ 0)
unfolding get has
waits-some [] s h = absurd (h refl)
waits-some ((k, r) ∷ rows) s h = elim (Bool-cases (r.degree == 0)) [
  | inl zero_r ↦
      let (j, q, at, pos_q) = waits-some rows s.1 (ground arith) in
      (j, q, ground (arith, eq_iff k j, contains-keys k rows), pos_q)
  | inr pos_r ↦ (k, r, ground (arith, eq_iff k k), ground arith)
]

module _ (m : Services) (ranking : Ranking m) (rows : Rows) (order : List String)
    (h : IsCounted m rows [] order) where
  open_parts :
      (d : String) → is_open m order d ≡ true → (has d m ≡ true) × (contains d order ≡ false)
  unfolding is_open
  open_parts d o = ground arith

  dep_of :
      (k d : String) (e : ServiceEntry) (r : Row)
      → r.deps ≡ to_set e.depends_on
      → contains d r.deps ≡ true
      → contains d e.depends_on ≡ true
  dep_of k d e r same dep = sym (contains-to_set d e.depends_on) ∙ ap (contains d) (sym same) ∙ dep

  placed_zero :
      (k : String) (r : Row)
      → get k rows ≡ some r
      → (r.degree == 0) ≡ true
      → contains k order ≡ true
  unfolding contains
  placed_zero k r row z = ground (arith, h.placed k r row)

  left_over :
      (k : String) (r : Row)
      → get k rows ≡ some r
      → (r.degree == 0) ≡ false
      → count_if (is_open m order) r.deps ≢ 0
  left_over k r row z e = ground (arith, h.counted k r row)

  -- Where nothing is left in the queue, nothing waits.
  ranked_placed :
      (bound : ℕ) (k : String) (e : ServiceEntry)
      → ranking.rank k < bound
      → get k m ≡ some e
      → contains k order ≡ true
  ranked_placed zero k e below at = absurd (omega arith)
  ranked_placed (suc bound) k e below at =
      let (r, row, same) = h.deps k e at in
      elim (Bool-cases (r.degree == 0)) [
        | inl none_left ↦ placed_zero k r row none_left
        | inr some_left ↦
            let (d, dep, opened) =
              count_if_some (is_open m order) r.deps (λ z. left_over k r row some_left z) in
            let (known, missing) = open_parts d opened in
            let (f, found) = has-some d m known in
            let lower = ranking.falls k e d at (dep_of k d e r same dep) known in
            absurd (true≢false (sym (ranked_placed bound d f (omega arith) found) ∙ missing))
      ]

  pub none_waits : IsDistinct (keys m) → count_if waits rows ≡ 0
  unfolding has contains
  none_waits single = elim (Bool-cases (count_if waits rows == 0)) [
    | inl none_left ↦ ground arith
    | inr some_left ↦
        let (k, r, row, waiting) = waits-some rows (rw h.names single) (λ z. ground arith) in
        let (e, at) = has-some k m (
          sym (contains-keys k m)
          ∙ ap (contains k) (sym h.names)
          ∙ contains-keys k rows
          ∙ (rw row)) in
        absurd (
          waiting (
            ground
              (arith, h.placed k r row, ranked_placed (suc (ranking.rank k)) k e (omega arith) at)))
  ]
