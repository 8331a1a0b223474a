-- ===== src/Kernel/Registry/Order.antt =====
-- `_resolve_start_order` finds an order of the services in which each stands behind its dependencies,
-- or there is none.
use mathlib.Core.Bool.{false≢true}
use redops.Base.{
  ℕ, String, true, false, ◌==◌, some, List, [], ◌∷◌, length, count_if, get, has, keys, ok, raised,
  contains, IsDistinct, Bool-cases, inl, inr, ◌≡◌, arith, has-some, ap, sym, ◌∙◌,
}
use redops.Kernel.Registry.{
  Services, Row, Rows, fill, roots, drain, accept, resolve_start_order, circular_dependency,
}
use redops.Kernel.Registry.Counting.{waits}
use redops.Kernel.Registry.Filled.{fill-IsCounted}
use redops.Kernel.Registry.Drain.{Respects, drain-Drained}
use redops.Kernel.Registry.Ranked.{Ranking, none_waits}
use redops.Kernel.Registry.Turn.{IsCounted}

-- An order of all services, each once and behind its dependencies.
pub record IsStartOrder (m : Services) (order : List String) : Type 0 where
  pub ready : Respects m [] order
  pub once : IsDistinct order
  pub complete : (k : String) → contains k order ≡ has k m

waits_none :
    (rows : Rows) (k : String) (r : Row)
    → count_if waits rows ≡ 0
    → get k rows ≡ some r
    → (r.degree == 0) ≡ true
unfolding get
waits_none [] k r z at = cc
waits_none ((j, q) ∷ rows) k r z at = ground (arith, waits_none rows k r)

-- What `_resolve_start_order` does: it returns an order in which every service stands behind its registered
-- dependencies and none is missing or repeated, or it raises, and then the dependencies have a cycle.
pub data Decides (m : Services) : Type 0 where
  ordered :
      (order : List String)
      → resolve_start_order m ≡ some (ok order)
      → IsStartOrder m order
      → Decides m
  circular : resolve_start_order m ≡ some (raised circular_dependency) → ¬ Ranking m → Decides m

resolved :
    (m : Services) (order : List String)
    → drain (length m) (fill m m) (roots (fill m m)) [] ≡ some order
    → resolve_start_order m ≡ some (accept (length m) order)
unfolding resolve_start_order
resolved m order e = rw (e, resolve_start_order)

module _ (n : ℕ) (order : List String) where
  accept_all : (length order == n) ≡ true → accept n order ≡ ok order
  unfolding accept
  accept_all h = ground arith

  accept_some : (length order == n) ≡ false → accept n order ≡ raised circular_dependency
  unfolding accept
  accept_some h = ground arith

module _ (m : Services) (rows : Rows) (order : List String) (h : IsCounted m rows [] order) where
  all_taken : count_if waits rows ≡ 0 → (length order == length m) ≡ true
  all_taken z = ground (arith, h.total)

  complete_order : count_if waits rows ≡ 0 → (k : String) → contains k order ≡ has k m
  unfolding contains
  complete_order z k = elim (Bool-cases (has k m)) [
    | inl there ↦
        let (e, at) = has-some k m there in
        let (r, row, same) = h.deps k e at in
        ground (arith, h.placed k r row, waits_none rows k r z row)
    | inr absent ↦ ground (arith, h.known k)
  ]

  finished : Respects m [] order → (length order == length m) ≡ true → IsStartOrder m order
  finished ready all = record {
    ready = ready;
    once = h.once;
    complete = complete_order (ground (arith, h.total));
  }

pub resolve_start_order-Decides : (m : Services) → IsDistinct (keys m) → Decides m
resolve_start_order-Decides m single =
    let end =
      drain-Drained m single (length m) (fill m m) (roots (fill m m)) [] (fill-IsCounted m single)
        (omega arith) in
    elim (Bool-cases (length end.taken == length m)) [
      | inl all ↦
          ordered end.taken
            (resolved m end.taken end.returns ∙ ap some (accept_all (length m) end.taken all))
            (finished m end.final end.taken end.counted end.ready all)
      | inr missing ↦
          circular
            (resolved m end.taken end.returns ∙ ap some (accept_some (length m) end.taken missing))
            λ ranking. false≢true (
              sym missing
              ∙ all_taken m end.final end.taken end.counted
                  (none_waits m ranking end.final end.taken end.counted single))
    ]
