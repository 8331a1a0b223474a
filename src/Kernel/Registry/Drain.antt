-- ===== src/Kernel/Registry/Drain.antt =====
-- The `while` loop of `_resolve_start_order`: what it takes from the queue finds its dependencies taken.
use mathlib.Core.Path.{subst}
use redops.Base.{
  ℕ, zero, suc, ◌+◌, ◌≤◌, String, Bool, true, false, some, List, [], ◌∷◌, ◌++◌, length, length-snoc,
  count_if, get, has, keys, contains, IsDistinct, ◌≡◌, arith, eq_iff, contains-to_set, ap, sym, ◌∙◌,
}
use mathlib.Core.List.{append_assoc, append-nil}
use redops.Kernel.Registry.{ServiceEntry, Services, Rows, drain, visit}
use redops.Kernel.Registry.Counting.{is_open}
use redops.Kernel.Registry.Turn.{IsCounted, visit-IsCounted}

-- Every registered dependency of the service is among `seen`.
abbrev pub IsReady : Services → List String → String → Type 0
IsReady m seen name =
    (e : ServiceEntry) (d : String)
    → get name m ≡ some e
    → contains d e.depends_on ≡ true
    → has d m ≡ true
    → contains d seen ≡ true

-- Each service of the list finds its dependencies before it.
abbrev pub Respects : Services → List String → List String → Type 0
Respects m seen [] = Unit
Respects m seen (name ∷ names) = IsReady m seen name × Respects m (seen ++ (name ∷ [])) names

count_if_none :
    (p : String → Bool) (d : String) (xs : List String)
    → count_if p xs ≡ 0
    → contains d xs ≡ true
    → p d ≡ false
unfolding contains
count_if_none p d [] h c = cc
count_if_none p d (x ∷ xs) h c = ground (arith, count_if_none p d xs, eq_iff x d)

-- What is known when the loop has ended.
pub record Drained (m : Services) (fuel : ℕ) (rows : Rows) (queue order : List String)
    : Type 0 where
  pub final : Rows
  pub taken : List String
  pub returns : drain fuel rows queue order ≡ some (order ++ taken)
  pub counted : IsCounted m final [] (order ++ taken)
  pub ready : Respects m order taken

module _ (m : Services) (single : IsDistinct (keys m)) where
  -- A name in the queue has found its dependencies.
  queued-IsReady :
      (rows : Rows) (queue order : List String) (name : String)
      → IsCounted m rows (name ∷ queue) order
      → IsReady m order name
  unfolding contains is_open
  queued-IsReady rows queue order name h e d at dep known =
      let (r, row, same) = h.deps name e at in
      ground (
        arith,
        h.placed name r row,
        h.counted name r row,
        eq_iff name name,
        count_if_none (is_open m order) d r.deps,
        contains-to_set d e.depends_on,
      )

  pub drain-Drained :
      (fuel : ℕ) (rows : Rows) (queue order : List String)
      → IsCounted m rows queue order
      → length m ≤ fuel + length order
      → Drained m fuel rows queue order
  unfolding drain
  drain-Drained zero rows [] order h enough = record {
    final = rows;
    taken = [];
    returns = ap some (sym (append-nil order));
    counted = rw append-nil h;
    ready = tt;
  }
  drain-Drained (suc fuel) rows [] order h enough = record {
    final = rows;
    taken = [];
    returns = ap some (sym (append-nil order));
    counted = rw append-nil h;
    ready = tt;
  }
  drain-Drained zero rows (name ∷ queue) order h enough = absurd (omega (arith, h.total))
  drain-Drained (suc fuel) rows (name ∷ queue) order h enough =
      let (rest, freed) = visit name rows in
      let next =
        drain-Drained fuel rest (queue ++ freed) (order ++ (name ∷ []))
          (visit-IsCounted m rows queue order name single h)
          (omega (arith, length-snoc order name)) in
      record {
        final = next.final;
        taken = name ∷ next.taken;
        returns = next.returns ∙ ap some (append_assoc order (name ∷ []) next.taken);
        counted =
            subst (IsCounted m next.final []) (append_assoc order (name ∷ []) next.taken)
              next.counted;
        ready = (queued-IsReady rows queue order name h, next.ready);
      }
