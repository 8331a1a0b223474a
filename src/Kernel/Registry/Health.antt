-- ===== src/Kernel/Registry/Health.antt =====
-- A registry over every sequence of `register` and `unregister`, and what `start_all` and `stop_all`
-- leave.
use mathlib.Core.Path.{subst}
use mathlib.Core.List.{reverse, reverse-cons}
use redops.Base.{
  String, Bool, true, false, not, ◌&&◌, if◌then◌else◌, Option, none, some, List, [], ◌∷◌, get, has,
  put, keys, contains, IsDistinct, put-IsDistinct, remove-IsDistinct, get-put, eq_iff, str_eq, ◌≡◌,
  refl, sym, ap, ◌∙◌, contains-append, arith, Call, is_ok,
}
use redops.Kernel.Registry.{
  ServiceEntry, Services, RegistryError, register, unregister, start_each, stop_each, start_all,
  stop_all, is_healthy, set_healthy, mark,
}
use redops.Kernel.Registry.Order.{Decides, ordered, circular, resolve_start_order-Decides}

pub data Request : Type 0 where
  to_register : String → List String → Request
  to_unregister : String → Request

unfoldable pub serve : Request → Services → Services
unfolding register unregister
serve (to_register name deps) m = (register name deps m).self
serve (to_unregister name) m = unregister name m

unfoldable pub serve_all : List Request → Services → Services
unfolding serve
serve_all [] m = m
serve_all (r ∷ rs) m = serve_all rs (serve r m)

register-IsDistinct :
    (b : Bool) (m n : Services)
    → IsDistinct (keys m)
    → IsDistinct (keys n)
    → IsDistinct (keys (if b then m else n))
register-IsDistinct true m n hm hn = hm
register-IsDistinct false m n hm hn = hn

register_self :
    (name : String) (deps : List String) (m : Services)
    → (serve (to_register name deps) m)
      ≡ (if has name m then m else put name (record { depends_on = deps; healthy = false }) m)
unfolding serve
register_self name deps m = ground arith

serve-IsDistinct :
    (r : Request) (m : Services) → IsDistinct (keys m) → IsDistinct (keys (serve r m))
unfolding serve
serve-IsDistinct (to_register name deps) m h =
    subst (λ n. IsDistinct (keys n)) (sym (register_self name deps m))
      (register-IsDistinct (has name m) m _ h (put-IsDistinct name _ m h))
serve-IsDistinct (to_unregister name) m h = remove-IsDistinct name m h

pub serve_all-IsDistinct :
    (rs : List Request) (m : Services) → IsDistinct (keys m) → IsDistinct (keys (serve_all rs m))
unfolding serve_all
serve_all-IsDistinct [] m h = h
serve_all-IsDistinct (r ∷ rs) m h = serve_all-IsDistinct rs (serve r m) (serve-IsDistinct r m h)

-- Whatever was registered and unregistered, `_resolve_start_order` returns an order in which
-- every service stands behind its registered dependencies and none is missing or repeated, or it
-- raises, and then the dependencies have a cycle.
pub serve_all-Decides : (rs : List Request) → Decides (serve_all rs [])
serve_all-Decides rs = resolve_start_order-Decides (serve_all rs []) (serve_all-IsDistinct rs [] tt)

-- The registry after `entry.healthy = b`.
marked :
    (b : Bool) (name k : String) (m : Services) (found : Option ServiceEntry)
    → get name m ≡ found
    → (has k (mark b name m found) ≡ has k m)
      × (is_healthy k (mark b name m found)
          ≡ (if str_eq name k then has k m && b else is_healthy k m))
unfolding has is_healthy
marked b name k m none e = ground (arith, eq_iff name k)
marked b name k m (some entry) e =
    ground (arith, eq_iff name k, get-put name k (record entry { healthy = b }) m)

-- What the loop of `start_all` leaves.
started :
    (starts : String → Bool) (names : List String) (k : String) (m : Services)
    → (has k (start_each starts names m) ≡ has k m)
      × (is_healthy k (start_each starts names m)
          ≡ (if contains k names then has k m && starts k else is_healthy k m))
unfolding start_each contains
started starts [] k m = (refl, refl)
started starts (name ∷ names) k m = ground (
  arith,
  marked (starts name) name k m (get name m) refl,
  started starts names k (set_healthy (starts name) name m),
  eq_iff name k,
)

-- What the loop of `stop_all` leaves.
stopped :
    (stops : String → Bool) (names : List String) (k : String) (m : Services)
    → is_healthy k (stop_each stops names m)
      ≡ (if contains k names then is_healthy k m && not (stops k) else is_healthy k m)
unfolding stop_each contains
stopped stops [] k m = refl
stopped stops (name ∷ names) k m = ground (
  arith,
  marked false name k m (get name m) refl,
  stopped stops names k (set_healthy false name m),
  stopped stops names k m,
  eq_iff name k,
)

contains-reverse : (k : String) (xs : List String) → contains k (reverse xs) ≡ contains k xs
unfolding contains
contains-reverse k [] = refl
contains-reverse k (x ∷ xs) =
    ap (contains k) (reverse-cons x xs)
    ∙ ground (arith, contains-append k (reverse xs) (x ∷ []), contains-reverse k xs)

unregistered : (k : String) (m : Services) → has k m ≡ false → is_healthy k m ≡ false
unfolding has is_healthy
unregistered k m h = ground arith

module _ (answers : String → Bool) (m : Services) (single : IsDistinct (keys m))
    (c : Call Services RegistryError (Unit {0})) (k : String) where
  -- After a `start_all` that returns, on a registry in which no name stands twice, a service is
  -- healthy exactly where it is registered and its `start` returned.
  pub start_all_health :
      start_all answers m ≡ some c → is_ok c ≡ true → is_healthy k c.self ≡ (has k m && answers k)
  unfolding start_all
  start_all_health h fine = elim (resolve_start_order-Decides m single) [
    | ordered order e o ↦ ground (arith, started answers order k m, o.complete k, unregistered k m)
    | circular e _ ↦ ground arith
  ]

  -- After a `stop_all` that returns, a service is healthy exactly where it was and its `stop` raised.
  pub stop_all_health :
      stop_all answers m ≡ some c
      → is_ok c ≡ true
      → is_healthy k c.self ≡ (is_healthy k m && not (answers k))
  unfolding stop_all
  stop_all_health h fine = elim (resolve_start_order-Decides m single) [
    | ordered order e o ↦ ground (
      arith,
      stopped answers (reverse order) k m,
      contains-reverse k order,
      o.complete k,
      unregistered k m,
    )
    | circular e _ ↦ ground arith
  ]
