-- ===== src/Runtime/Limiter/Window/Bound.antt =====
-- runtime_coordinator.py and rate_limiter.py: how many requests one minute can hold, and the two
-- policies that the limiter does not serve.
use mathlib.Core.List.{append_assoc}
use text.Mathlib.TextPositions.{eq_refl}
use redops.Base.{
  ℕ, ◌+◌, ◌≤◌, ◌<◌, String, ◌≡◌, refl, sym, ap, ◌∙◌, Bool, true, false, none, some, List, [], ◌∷◌,
  ◌++◌, length, All-append, arith, Result, ok, raised,
}
use redops.Runtime.Limiter.{
  Policy, Limiter, LimiterError, CheckResult, new, check, record_request, acquire_concurrent,
  release_concurrent, minute, pop_old, or_empty, index_error,
}
use redops.Runtime.Limiter.Window.{
  admit, Trace, attempt, Request, attempts, releases, serve, serve_all, IsOrdered, last_time,
  recent, Expired, recent-append, recent-le-length, recent-Expired, recent_later, Expired-later,
  popped, popped-pop_old, Covers,
}

-- What an attempt does to the window.
data Effect (key : String) (t now rpm : ℕ) (s s' : Trace) : Type 0 where
  refused :
      s'.log ≡ s.log
      → or_empty (s'.limiter.timestamps key) ≡ or_empty (s.limiter.timestamps key)
      → Effect key t now rpm s s'
  emptied :
      s'.log ≡ s.log
      → or_empty (s'.limiter.timestamps key) ≡ pop_old t (or_empty (s.limiter.timestamps key))
      → Effect key t now rpm s s'
  recorded :
      s'.log ≡ s.log ++ (now ∷ [])
      → or_empty (s'.limiter.timestamps key)
        ≡ pop_old t (or_empty (s.limiter.timestamps key)) ++ (now ∷ [])
      → length (pop_old t (or_empty (s.limiter.timestamps key))) < rpm
      → Effect key t now rpm s s'

module _ (key : String) (t now rpm : ℕ) (s : Trace)
    (p : s.limiter.policy.requests_per_minute ≡ some rpm) where
  attempt-policy : (attempt key t now s).limiter.policy ≡ s.limiter.policy
  unfolding attempt admit check record_request acquire_concurrent
  attempt-policy = ground arith

  attempt-Effect : Effect key t now rpm s (attempt key t now s)
  unfolding attempt admit check record_request acquire_concurrent
  attempt-Effect = grind (arith, eq_refl, recorded, emptied, refused)

module _ (key : String) (from t now rpm : ℕ) (le : from ≤ t) (le' : t ≤ now) (s : Trace)
    (c : Covers key from rpm s) where
  -- The window after the expired times are dropped, with what was dropped before.
  gone_now : List ℕ
  gone_now = c.gone ++ popped t (or_empty (s.limiter.timestamps key))

  split_now : s.log ≡ gone_now ++ pop_old t (or_empty (s.limiter.timestamps key))
  unfolding gone_now
  split_now =
      rw append_assoc (
        c.split
        ∙ ap (λ ts. c.gone ++ ts) (popped-pop_old t (or_empty (s.limiter.timestamps key))).0)

  Expired-now : Expired now gone_now
  unfolding gone_now
  Expired-now =
      All-append (λ x. x + minute < now) c.gone (popped t (or_empty (s.limiter.timestamps key)))
        (Expired-later from now c.gone (omega arith) c.expired)
        (Expired-later t now (popped t (or_empty (s.limiter.timestamps key))) le'
          (popped-pop_old t (or_empty (s.limiter.timestamps key))).1)

  few_now : recent now s.log ≤ rpm
  few_now = omega (arith, recent_later from now s.log (omega arith), c.few)

  Covers-after :
      (s' : Trace)
      → Effect key t now rpm s s'
      → s'.limiter.policy ≡ s.limiter.policy
      → Covers key now rpm s'
  Covers-after s' (refused e w) q = record {
    gone = c.gone;
    split = e ∙ c.split ∙ ap (λ ts. c.gone ++ ts) (sym w);
    expired = Expired-later from now c.gone (omega arith) c.expired;
    few = rw e few_now;
    kept = rw q c.kept;
  }
  Covers-after s' (emptied e w) q = record {
    gone = gone_now;
    split = e ∙ split_now ∙ ap (λ ts. gone_now ++ ts) (sym w);
    expired = Expired-now;
    few = rw e few_now;
    kept = rw q c.kept;
  }
  Covers-after s' (recorded e w n) q =
      let ts = pop_old t (or_empty (s.limiter.timestamps key)) in
      record {
        gone = gone_now;
        split =
            e
            ∙ ap (λ l. l ++ (now ∷ [])) split_now
            ∙ append_assoc gone_now ts (now ∷ [])
            ∙ ap (λ l. gone_now ++ l) (sym w);
        expired = Expired-now;
        few =
            rw (e, split_now)
              (omega (
                arith,
                recent-append now (gone_now ++ ts) (now ∷ []),
                recent-append now gone_now ts,
                recent-Expired now gone_now Expired-now,
                recent-le-length now ts,
                recent-le-length now (now ∷ []),
                n,
              ));
        kept = rw q c.kept;
      }

attempt-Covers :
    (key : String) (from t now rpm : ℕ) (s : Trace)
    → from ≤ t
    → t ≤ now
    → Covers key from rpm s
    → Covers key now rpm (attempt key t now s)
attempt-Covers key from t now rpm s le le' c =
    Covers-after key from t now rpm le le' s c (attempt key t now s)
      (attempt-Effect key t now rpm s c.kept) (attempt-policy key t now rpm s c.kept)

releases-Covers :
    (key : String) (from rpm : ℕ) (s : Trace)
    → Covers key from rpm s
    → Covers key from rpm (serve key releases s)
unfolding serve release_concurrent
releases-Covers key from rpm s c = record {
  gone = c.gone;
  split = c.split;
  expired = c.expired;
  few = c.few;
  kept = c.kept;
}

serve_all-Covers :
    (key : String) (from rpm : ℕ) (rs : List Request) (s : Trace)
    → IsOrdered from rs
    → Covers key from rpm s
    → Covers key (last_time from rs) rpm (serve_all key rs s)
unfolding serve_all serve
serve_all-Covers key from rpm [] s o c = c
serve_all-Covers key from rpm (attempts t now ∷ rs) s o c =
    serve_all-Covers key now rpm rs (attempt key t now s) o.2
      (attempt-Covers key from t now rpm s o.0 o.1 c)
serve_all-Covers key from rpm (releases ∷ rs) s o c =
    serve_all-Covers key from rpm rs (serve key releases s) o (releases-Covers key from rpm s c)

abbrev pub fresh : Policy → Trace
fresh p = record { limiter = new p; log = [] }

-- Where a policy has a limit on the requests per minute, and a new limiter serves any sequence of
-- attempts and of releases of slots under a key, by a clock that does not go back, no more requests
-- than the limit were admitted within the minute before the last attempt.
pub window_bounded :
    (key : String) (from rpm : ℕ) (rs : List Request) (p : Policy)
    → p.requests_per_minute ≡ some rpm
    → IsOrdered from rs
    → recent (last_time from rs) (serve_all key rs (fresh p)).log ≤ rpm
window_bounded key from rpm rs p e o =
    (serve_all-Covers key from rpm rs (fresh p) o (record {
      gone = [];
      split = unfold new in refl;
      expired = tt;
      few = unfold recent in omega arith;
      kept = unfold new in e;
    })).few

abbrev pub allows : Result LimiterError CheckResult → Bool
allows (ok r) = r.allowed
allows (raised e) = false

-- A limit on tokens alone refuses nothing: every check under it allows the request, whatever was
-- recorded before, and changes nothing.
pub tokens_unenforced :
    (key : String) (t : ℕ) (l : Limiter)
    → l.policy.requests_per_minute ≡ none
    → l.policy.concurrent_requests ≡ none
    → (allows (check key t l).result ≡ true) × ((check key t l).self ≡ l)
unfolding check
tokens_unenforced key t l h k = ground arith

-- A limit of no requests at all raises an `IndexError` in place of a refusal.
pub zero_limit_raises :
    (key : String) (t : ℕ) (p : Policy)
    → p.requests_per_minute ≡ some 0
    → p.concurrent_requests ≡ none
    → (check key t (new p)).result ≡ raised index_error
unfolding check new
zero_limit_raises key t p h k = ground arith
