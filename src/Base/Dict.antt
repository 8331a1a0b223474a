-- ===== src/Base/Dict.antt =====
-- A Python `dict` with text keys, as the list of its items in the order of their insertion, and a
-- `set` of texts, as a list without repetitions.
use Prim.Native.Nat.{◌+◌}
use Prim.Native.String.{String}
use text.Mathlib.Text.{◌==◌ as str_eq}
use text.Mathlib.TextEquality.{eq_iff}
use mathlib.Core.Path.{◌≡◌, refl}
use mathlib.Core.Logic.{inl, inr}
use mathlib.Core.Bool.{Bool, true, false, not, ◌&&◌, ◌||◌}
use mathlib.Core.Option.{Option, none, some}
use mathlib.Core.List.{List, [], ◌∷◌, ◌++◌}
use native.Mathlib.Omega.{arith}
use redops.Base.Tests.{if◌then◌else◌, is_some, Bool-cases}
use redops.Base.Lists.{count_if}

-- `key in texts`
unfoldable pub contains : String → List String → Bool
contains k [] = false
contains k (x ∷ xs) = str_eq x k || contains k xs

-- `set(texts)`
unfoldable pub to_set : List String → List String
unfolding contains
to_set [] = []
to_set (x ∷ xs) = let rest = to_set xs in if contains x rest then rest else x ∷ rest

abbrev pub IsDistinct : List String → Type 0
IsDistinct [] = Unit
IsDistinct (x ∷ xs) = (contains x xs ≡ false) × IsDistinct xs

pub contains-append :
    (k : String) (xs ys : List String) → contains k (xs ++ ys) ≡ (contains k xs || contains k ys)
unfolding contains
contains-append k [] ys = refl
contains-append k (x ∷ xs) ys = ground (arith, contains-append k xs ys)

pub contains-to_set : (k : String) (xs : List String) → contains k (to_set xs) ≡ contains k xs
unfolding contains to_set
contains-to_set k [] = refl
contains-to_set k (x ∷ xs) = ground (arith, contains-to_set k xs, contains-to_set x xs, eq_iff x k)

pub to_set-IsDistinct : (xs : List String) → IsDistinct (to_set xs)
unfolding to_set
to_set-IsDistinct [] = tt
to_set-IsDistinct (x ∷ xs) = ground (arith, to_set-IsDistinct xs)

pub append-IsDistinct :
    (xs ys : List String)
    → IsDistinct xs
    → IsDistinct ys
    → ((k : String) → contains k xs ≡ true → contains k ys ≡ false)
    → IsDistinct (xs ++ ys)
unfolding contains
append-IsDistinct [] ys hx hy apart = hy
append-IsDistinct (x ∷ xs) ys hx hy apart = (
  ground (arith, contains-append x xs ys, apart x, eq_iff x x),
  append-IsDistinct xs ys hx.1 hy (λ k h. apart k (ground arith)),
)

-- One element less passes a test of a list without repetitions.
pub count_if-except :
    (p : String → Bool) (n : String) (xs : List String)
    → IsDistinct xs
    → p n ≡ true
    → count_if (λ d. p d && not (str_eq n d)) xs + (if contains n xs then 1 else 0) ≡ count_if p xs
unfolding contains
count_if-except p n [] h pn = refl
count_if-except p n (x ∷ xs) h pn =
    ground (arith, count_if-except p n xs h.1 pn, eq_iff n x, eq_iff x n)

module _ {ℓ} {V : Type ℓ} where
  abbrev pub keys : List (String × V) → List String
  keys [] = []
  keys ((k, v) ∷ m) = k ∷ keys m

  -- `m.get(k)`
  unfoldable pub get : String → List (String × V) → Option V
  get k [] = none
  get k ((j, v) ∷ m) = if str_eq j k then some v else get k m

  -- `k in m`
  unfoldable pub has : String → List (String × V) → Bool
  unfolding get
  has k m = is_some (get k m)

  -- `m[k] = v`
  unfoldable pub put : String → V → List (String × V) → List (String × V)
  put k v [] = (k, v) ∷ []
  put k v ((j, w) ∷ m) = if str_eq j k then (j, v) ∷ m else (j, w) ∷ put k v m

  -- `m.pop(k, None)`
  unfoldable pub remove : String → List (String × V) → List (String × V)
  remove k [] = []
  remove k ((j, w) ∷ m) = let rest = remove k m in if str_eq j k then rest else (j, w) ∷ rest

  pub get-put :
      (k j : String) (v : V) (m : List (String × V))
      → get j (put k v m) ≡ (if str_eq k j then some v else get j m)
  unfolding get put
  get-put k j v [] = refl
  get-put k j v ((i, w) ∷ m) = ground (arith, eq_iff k j, eq_iff i k, eq_iff i j, get-put k j v m)

  pub get-remove :
      (k j : String) (m : List (String × V))
      → get j (remove k m) ≡ (if str_eq k j then none else get j m)
  unfolding get remove
  get-remove k j [] = ground arith
  get-remove k j ((i, w) ∷ m) = ground (arith, eq_iff k j, eq_iff i k, eq_iff i j, get-remove k j m)

  pub contains-keys : (k : String) (m : List (String × V)) → contains k (keys m) ≡ has k m
  unfolding contains has get
  contains-keys k [] = refl
  contains-keys k ((j, v) ∷ m) = ground (arith, contains-keys k m)

  pub has-some :
      (k : String) (m : List (String × V)) → has k m ≡ true → (v : V) × (get k m ≡ some v)
  unfolding has
  has-some k m h = found (get k m) refl h
    where
      found : (o : Option V) → get k m ≡ o → is_some o ≡ true → (v : V) × (get k m ≡ some v)
      found none e h = cc
      found (some v) e h = (v, e)

  contains-keys-put :
      (k j : String) (v : V) (m : List (String × V))
      → contains j (keys (put k v m)) ≡ (str_eq k j || contains j (keys m))
  unfolding contains put
  contains-keys-put k j v [] = ground arith
  contains-keys-put k j v ((i, w) ∷ m) =
      ground (arith, contains-keys-put k j v m, eq_iff i k, eq_iff k j, eq_iff i j)

  contains-keys-remove :
      (k j : String) (m : List (String × V))
      → contains j (keys (remove k m)) ≡ (contains j (keys m) && not (str_eq k j))
  unfolding contains remove
  contains-keys-remove k j [] = refl
  contains-keys-remove k j ((i, w) ∷ m) =
      ground (arith, contains-keys-remove k j m, eq_iff i k, eq_iff k j, eq_iff i j)

  pub put-IsDistinct :
      (k : String) (v : V) (m : List (String × V))
      → IsDistinct (keys m)
      → IsDistinct (keys (put k v m))
  unfolding put contains
  put-IsDistinct k v [] h = (refl, tt)
  put-IsDistinct k v ((i, w) ∷ m) h = elim (Bool-cases (str_eq i k)) [
    | inl same ↦ rw same h
    | inr other ↦ rw other (
      ground (arith, contains-keys-put k i v m, eq_iff k i, eq_iff i k),
      put-IsDistinct k v m h.1,
    )
  ]

  pub remove-IsDistinct :
      (k : String) (m : List (String × V)) → IsDistinct (keys m) → IsDistinct (keys (remove k m))
  unfolding remove
  remove-IsDistinct k [] h = tt
  remove-IsDistinct k ((i, w) ∷ m) h = elim (Bool-cases (str_eq i k)) [
    | inl same ↦ rw same (remove-IsDistinct k m h.1)
    | inr other ↦ rw other (ground (arith, contains-keys-remove k i m), remove-IsDistinct k m h.1)
  ]
