-- ===== src/Base/Calls.antt =====
-- A Python method that mutates `self` and may raise. What was assigned before a `raise` stays
-- assigned, so the object comes back beside the error too.
use Prim.Native.Nat.{ℕ}
use mathlib.Core.Path.{◌≡◌, refl, sym}
use mathlib.Core.Bool.{Bool, true, false, true≢false}

pub data Result {ℓ} (E A : Type ℓ) : Type ℓ where
  ok : A → Result E A
  raised : E → Result E A

-- The object after the call, and what the call returned or raised.
pub record Call {ℓ} (S E A : Type ℓ) : Type ℓ where
  pub self : S
  pub result : Result E A

module _ {ℓ} {S E A : Type ℓ} where
  abbrev pub return : S → A → Call S E A
  return s a = record { self = s; result = ok a }

  abbrev pub raise : S → E → Call S E A
  raise s e = record { self = s; result = raised e }

  abbrev pub is_ok : Call S E A → Bool
  is_ok c = elim c.result [ ok a ↦ true | raised e ↦ false ]

-- The readings of `datetime.now(UTC)` within one call, in microseconds: `now i` is the reading with
-- index `i`. The readings of one call need not agree.
abbrev pub Clock : Type 0
Clock = ℕ → ℕ

module _ {ℓ} {S E A B : Type ℓ} where
  -- The next statement, which is not reached where the one before has raised.
  abbrev pub and_then : Call S E A → (A → S → Call S E B) → Call S E B
  and_then c next = elim c.result [ ok a ↦ next a c.self | raised e ↦ raise c.self e ]

module _ {ℓ} {S E A : Type ℓ} where
  -- `except Exception as e:`
  abbrev pub except : Call S E A → (E → S → Call S E A) → Call S E A
  except c handle = elim c.result [ ok a ↦ c | raised e ↦ handle e c.self ]

module _ {ℓ} {S E A : Type ℓ} where
  pub raised_by : (c : Call S E A) → is_ok c ≡ false → (e : E) × (c.result ≡ raised e)
  raised_by c h = which c.result refl h
    where
      which :
          (o : Result E A)
          → c.result ≡ o
          → is_ok (record { self = c.self; result = o }) ≡ false
          → (e : E) × (c.result ≡ raised e)
      which (ok a) e h = absurd (true≢false h)
      which (raised x) e h = (x, e)

  pub ok_by : (c : Call S E A) → is_ok c ≡ true → (a : A) × (c.result ≡ ok a)
  ok_by c h = which c.result refl h
    where
      which :
          (o : Result E A)
          → c.result ≡ o
          → is_ok (record { self = c.self; result = o }) ≡ true
          → (a : A) × (c.result ≡ ok a)
      which (ok a) e h = (a, e)
      which (raised x) e h = absurd (true≢false (sym h))

module _ {ℓ} {S E A B : Type ℓ} where
  pub and_then_raised :
      (c : Call S E A) (next : A → S → Call S E B)
      → is_ok c ≡ false
      → (is_ok (and_then c next) ≡ false) × ((and_then c next).self ≡ c.self)
  and_then_raised c next h = let (e, same) = raised_by c h in rw same (refl, refl)

-- Rules for what holds after a sequence of statements, and after a `try`.
module _ {ℓ} {S E A B : Type ℓ} where
  pub and_then_ind {κ} :
      (P : Call S E A → Type κ) (Q : Call S E B → Type κ) (c : Call S E A)
      (next : A → S → Call S E B)
      → P c
      → ((s : S) (e : E) → P (raise s e) → Q (raise s e))
      → ((s : S) (a : A) → P (return s a) → Q (next a s))
      → Q (and_then c next)
  and_then_ind P Q c next p broken more = go c.result p
    where
      go :
          (x : Result E A)
          → P (record { self = c.self; result = x })
          → Q (and_then (record { self = c.self; result = x }) next)
      go (ok a) p = more c.self a p
      go (raised e) p = broken c.self e p

module _ {ℓ} {S E A : Type ℓ} where
  pub except_ind {κ} :
      (P : Call S E A → Type κ) (c : Call S E A) (handle : E → S → Call S E A)
      → P c
      → ((s : S) (e : E) → P (raise s e) → P (handle e s))
      → P (except c handle)
  except_ind P c handle p caught = go c.result p
    where
      go :
          (x : Result E A)
          → P (record { self = c.self; result = x })
          → P (except (record { self = c.self; result = x }) handle)
      go (ok a) p = p
      go (raised e) p = caught c.self e p

module _ {ℓ} {S E A B : Type ℓ} where
  pub and_then_at :
      (c : Call S E A) (next : A → S → Call S E B) (a : A)
      → c.result ≡ ok a
      → and_then c next ≡ next a c.self
  and_then_at c next a h = rw h refl

  pub and_then_ok :
      (c : Call S E A) (next : A → S → Call S E B)
      → is_ok c ≡ true
      → (a : A) × (and_then c next ≡ next a c.self)
  and_then_ok c next h = let (a, same) = ok_by c h in (a, and_then_at c next a same)
