-- ===== src/Base/Text.antt =====
-- `str.strip`: white space is what Python's `str.isspace` calls so.
use Prim.Native.Nat.{ℕ, zero, suc, ◌/◌, ◌%◌}
use Prim.Native.Char.{Char, code}
use Prim.Native.String.{String}
use mathlib.Core.Path.{◌≡◌, refl, ap, ◌∙◌}
use mathlib.Core.Bool.{Bool, true, false, ◌&&◌, ◌||◌}
use native.Mathlib.Omega.{arith}
use redops.Base.Tests.{leb, ◌==◌, if◌then◌else◌}

between : ℕ → ℕ → ℕ → Bool
between lo hi n = leb lo n && leb n hi

pub is_space : Char → Bool
is_space c =
    let n = code c in
    between 9 13 n
    || between 28 32 n
    || n == 133
    || n == 160
    || n == 5760
    || between 8192 8202 n
    || n == 8232
    || n == 8233
    || n == 8239
    || n == 8287
    || n == 12288

abbrev pub is_empty : String → Bool
is_empty String.[] = true
is_empty (String.◌∷◌ c s) = false

lstrip : String → String
lstrip String.[] = String.[]
lstrip (String.◌∷◌ c s) = let rest = lstrip s in if is_space c then rest else String.◌∷◌ c s

rstrip : String → String
rstrip String.[] = String.[]
rstrip (String.◌∷◌ c s) =
    let rest = rstrip s in if is_space c && is_empty rest then String.[] else String.◌∷◌ c rest

unfoldable pub strip : String → String
unfolding lstrip rstrip is_space between
strip s = rstrip (lstrip s)

-- The text begins with white space.
lead : String → Bool
lead String.[] = false
lead (String.◌∷◌ c s) = is_space c

lead-lstrip : (s : String) → lead (lstrip s) ≡ false
unfolding lead lstrip
lead-lstrip String.[] = refl
lead-lstrip (String.◌∷◌ c s) = ground (arith, lead-lstrip s)

lead-rstrip : (s : String) → lead s ≡ false → lead (rstrip s) ≡ false
unfolding lead rstrip
lead-rstrip String.[] h = refl
lead-rstrip (String.◌∷◌ c s) h = ground arith

lstrip_clean : (s : String) → lead s ≡ false → lstrip s ≡ s
unfolding lead lstrip
lstrip_clean String.[] h = refl
lstrip_clean (String.◌∷◌ c s) h = ground arith

rstrip_idem : (s : String) → rstrip (rstrip s) ≡ rstrip s
unfolding rstrip
rstrip_idem String.[] = refl
rstrip_idem (String.◌∷◌ c s) = ground (arith, rstrip_idem s)

-- A stripped text is left alone by another strip.
pub strip-strip : (s : String) → strip (strip s) ≡ strip s
unfolding strip
strip-strip s =
    ap rstrip (lstrip_clean (rstrip (lstrip s)) (lead-rstrip (lstrip s) (lead-lstrip s)))
    ∙ rstrip_idem (lstrip s)

digit : ℕ → Char
digit n =
    if n == 0
    then "0"
    else if n == 1
    then "1"
    else if n == 2
    then "2"
    else if n == 3
    then "3"
    else if n == 4
    then "4"
    else if n == 5
    then "5"
    else if n == 6
    then "6"
    else if n == 7
    then "7"
    else if n == 8
    then "8"
    else "9"

-- The digits of `n` before those in `rest`. A digit less is left in each turn, so `n` is fuel enough.
digits : ℕ → ℕ → String → String
unfolding digit
digits zero n rest = String.◌∷◌ (digit (n % 10)) rest
digits (suc fuel) n rest =
    let more = digits fuel (n / 10) (String.◌∷◌ (digit (n % 10)) rest) in
    if leb n 9 then String.◌∷◌ (digit (n % 10)) rest else more

-- `str(n)`
unfoldable pub str : ℕ → String
unfolding digits
str n = digits n n ""
