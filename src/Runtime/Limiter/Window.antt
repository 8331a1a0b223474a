-- ===== src/Runtime/Limiter/Window.antt =====
-- The limiter as backend/app/providers/runtime/execution/runtime_coordinator.py uses it before a
-- provider call: check, take a concurrency slot, record the request.
pub mod Bound
use mathlib.Core.List.{append_assoc}
use text.Mathlib.TextPositions.{eq_refl}
use redops.Base.{
  ℕ, ◌+◌, ◌≤◌, ◌<◌, String, ◌≡◌, refl, sym, ap, ◌∙◌, Bool, true, false, not, ◌&&◌, Option, none,
  some, List, [], ◌∷◌, ◌++◌, ltb, leb, if◌then◌else◌, length, count_if, count_if-append,
  count_if-le-length, All, All-append, is_some, arith, Result, ok, raised, Call, return, raise,
}
use redops.Runtime.Limiter.{
  Policy, Limiter, LimiterError, CheckResult, new, is_unlimited, check, check_window,
  record_request, acquire_concurrent, release_concurrent, minute, pop_old, or_empty, index_error,
}

-- What the coordinator keeps of an attempt: whether the provider may be called, and whether a
-- concurrency slot was taken.
pub record Admission : Type 0 where
  pub admitted : Bool
  pub slot : Bool

abbrev denial : Admission
denial = record { admitted = false; slot = false }

-- After a check that allows the request; `now` is the reading of `record_request`.
take_slot : String → ℕ → Limiter → Call Limiter LimiterError Admission
take_slot key now l =
    let (l', taken) = acquire_concurrent key l in
    let limited = is_some l.policy.concurrent_requests in
    if limited && not taken
    then return l' denial
    else return (record_request key now (if limited then l' else l))
        (record { admitted = true; slot = limited })

-- `enforce_rate_limit` is off exactly for an unlimited policy.
unfoldable pub admit : String → ℕ → ℕ → Limiter → Call Limiter LimiterError Admission
unfolding take_slot is_unlimited
admit key t now l =
    if is_unlimited l.policy
    then return l (record { admitted = true; slot = false })
    else (let c = check key t l in
        elim c.result [
          | ok r ↦ if r.allowed then take_slot key now c.self else return c.self denial
          | raised e ↦ raise c.self e
        ])

-- The limiter, and the times at which requests were recorded under the key, in order.
pub record Trace : Type 0 where
  pub limiter : Limiter
  pub log : List ℕ

abbrev is_admitted : Result LimiterError Admission → Bool
is_admitted (ok a) = a.admitted
is_admitted (raised e) = false

-- An attempt that is checked at `t` and recorded at `now`; one that raises is dropped.
unfoldable pub attempt : String → ℕ → ℕ → Trace → Trace
attempt key t now s =
    let c = admit key t now s.limiter in
    record { limiter = c.self; log = if is_admitted c.result then s.log ++ (now ∷ []) else s.log }

-- What the coordinator calls under a key: an attempt, with its two times, or the release of a slot.
pub data Request : Type 0 where
  attempts : ℕ → ℕ → Request
  releases : Request

unfoldable pub serve : String → Request → Trace → Trace
unfolding attempt
serve key (attempts t now) s = attempt key t now s
serve key releases s = record s { limiter = release_concurrent key s.limiter }

unfoldable pub serve_all : String → List Request → Trace → Trace
unfolding serve
serve_all key [] s = s
serve_all key (r ∷ rs) s = serve_all key rs (serve key r s)

-- The clock does not go back, from the time `from` on.
abbrev pub IsOrdered : ℕ → List Request → Type 0
IsOrdered from [] = Unit
IsOrdered from (attempts t now ∷ rest) = (from ≤ t) × (t ≤ now) × IsOrdered now rest
IsOrdered from (releases ∷ rest) = IsOrdered from rest

abbrev pub last_time : ℕ → List Request → ℕ
last_time from [] = from
last_time from (attempts t now ∷ rest) = last_time now rest
last_time from (releases ∷ rest) = last_time from rest

-- How many of the times lie within the minute before `now`.
unfoldable pub recent : ℕ → List ℕ → ℕ
recent now [] = 0
recent now (t ∷ ts) = (if leb now (t + minute) then 1 else 0) + recent now ts

abbrev Expired : ℕ → List ℕ → Type 0
Expired now = All λ t. t + minute < now

recent-append : (now : ℕ) (xs ys : List ℕ) → recent now (xs ++ ys) ≡ recent now xs + recent now ys
unfolding recent
recent-append now [] ys = omega arith
recent-append now (x ∷ xs) ys = omega (arith, recent-append now xs ys)

recent-le-length : (now : ℕ) (xs : List ℕ) → recent now xs ≤ length xs
unfolding recent
recent-le-length now [] = omega arith
recent-le-length now (x ∷ xs) = ground (arith, recent-le-length now xs)

recent-Expired : (now : ℕ) (xs : List ℕ) → Expired now xs → recent now xs ≡ 0
unfolding recent
recent-Expired now [] h = refl
recent-Expired now (x ∷ xs) h = ground (arith, recent-Expired now xs)

recent_later : (now later : ℕ) (xs : List ℕ) → now ≤ later → recent later xs ≤ recent now xs
unfolding recent
recent_later now later [] h = omega arith
recent_later now later (x ∷ xs) h = ground (arith, recent_later now later xs)

Expired-later : (now later : ℕ) (xs : List ℕ) → now ≤ later → Expired now xs → Expired later xs
Expired-later now later [] h e = tt
Expired-later now later (x ∷ xs) h e = (omega arith, Expired-later now later xs h e.1)

-- What `pop_old` drops.
popped : ℕ → List ℕ → List ℕ
popped now [] = []
popped now (t ∷ ts) = let rest = popped now ts in if ltb (t + minute) now then t ∷ rest else []

popped-pop_old :
    (now : ℕ) (ts : List ℕ) → (ts ≡ popped now ts ++ pop_old now ts) × Expired now (popped now ts)
unfolding popped pop_old
popped-pop_old now [] = (refl, tt)
popped-pop_old now (t ∷ ts) = ground (arith, popped-pop_old now ts)

-- The window holds the end of the log, and the rest of the log has expired.
record Covers (key : String) (now rpm : ℕ) (s : Trace) : Type 0 where
  gone : List ℕ
  split : s.log ≡ gone ++ or_empty (s.limiter.timestamps key)
  expired : Expired now gone
  few : recent now s.log ≤ rpm
  kept : s.limiter.policy.requests_per_minute ≡ some rpm
