-- ===== src/Runtime/Breaker/Tripping.antt =====
-- How a closed breaker opens: failures one after the other, none of them of a probe.
use mathlib.Core.Path.{subst}
use redops.Base.{
  Bool-cases, inl, inr, tests, if◌then◌else◌, sym, ℕ, ◌+◌, ◌≤◌, ◌<◌, ◌≡◌, refl, none, List, [], ◌∷◌,
  ◌++◌, ltb, length, length-snoc, All, All-append, arith,
}
use redops.Runtime.Breaker.{
  closed, open_, Config, new, Breaker, record_failure, expire, trim, counted,
}

-- Each failure is recorded at one reading of the clock.
unfoldable pub fail_all : List ℕ → Breaker → Breaker
fail_all [] b = b
fail_all (t ∷ ts) b = fail_all ts (record_failure none (λ _. t) b)

-- The times lie within one window of each other.
abbrev pub Within : ℕ → ℕ → List ℕ → Type 0
Within lo span = All λ t. (lo ≤ t) × (t ≤ lo + span)

expire-Within :
    (lo span now : ℕ) (ts : List ℕ) → now ≤ lo + span → Within lo span ts → expire now span ts ≡ ts
unfolding expire
expire-Within lo span now [] h w = refl
expire-Within lo span now (t ∷ ts) h w = ground arith

trim_short : (cap : ℕ) (ts : List ℕ) → length ts ≤ cap → trim cap ts ≡ ts
unfolding trim
trim_short cap [] h = refl
trim_short cap (t ∷ ts) h = ground arith

-- A failure that leaves the window no longer than the threshold is appended to it.
counted-window :
    (lo t : ℕ) (b : Breaker)
    → t ≤ lo + b.config.failure_window
    → Within lo b.config.failure_window b.window
    → length b.window < b.config.failure_threshold
    → (counted t b).window ≡ b.window ++ (t ∷ [])
unfolding counted
counted-window lo t b q w h = rw (expire-Within lo b.config.failure_window t b.window q w) (
    trim_short b.config.failure_threshold (b.window ++ (t ∷ []))
      (omega (arith, length-snoc b.window t)))

fail_more :
    (lo t : ℕ) (b : Breaker)
    → b.state ≡ closed
    → t ≤ lo + b.config.failure_window
    → Within lo b.config.failure_window b.window
    → length b.window + 1 < b.config.failure_threshold
    → let b' = record_failure none (λ _. t) b in
      (b'.state ≡ closed) × (b'.window ≡ b.window ++ (t ∷ [])) × (b'.config ≡ b.config)
unfolding record_failure
fail_more lo t b c q w h = ground (arith, counted-window lo t b q w, length-snoc b.window t)

fail_last :
    (lo t : ℕ) (b : Breaker)
    → b.state ≡ closed
    → t ≤ lo + b.config.failure_window
    → Within lo b.config.failure_window b.window
    → length b.window + 1 ≡ b.config.failure_threshold
    → (record_failure none (λ _. t) b).state ≡ open_
unfolding record_failure
fail_last lo t b c q w h = ground (arith, counted-window lo t b q w, length-snoc b.window t)

fail_all_below :
    (lo : ℕ) (ts : List ℕ) (b : Breaker)
    → b.state ≡ closed
    → Within lo b.config.failure_window b.window
    → Within lo b.config.failure_window ts
    → length b.window + length ts < b.config.failure_threshold
    → (fail_all ts b).state ≡ closed
unfolding fail_all
fail_all_below lo [] b c w v h = c
fail_all_below lo (t ∷ ts) b c w v h =
    let b' = record_failure none (λ _. t) b in
    let (c', w', e) = fail_more lo t b c v.0.1 w (omega arith) in
    let kept =
      All-append (λ x. (lo ≤ x) × (x ≤ lo + b.config.failure_window)) b.window (t ∷ []) w
        (v.0, tt) in
    fail_all_below lo ts b' c' (rw (e, w') kept)
      (subst (λ (k : Config). Within lo k.failure_window ts) (sym e) v.1)
      (rw (e, w') (omega (arith, length-snoc b.window t)))

fail_all_reaches :
    (lo : ℕ) (ts : List ℕ) (b : Breaker)
    → b.state ≡ closed
    → Within lo b.config.failure_window b.window
    → Within lo b.config.failure_window ts
    → 0 < length ts
    → length b.window + length ts ≡ b.config.failure_threshold
    → (fail_all ts b).state ≡ open_
unfolding fail_all
fail_all_reaches lo [] b c w v n h = elim n [ ]
fail_all_reaches lo (t ∷ []) b c w v n h = fail_last lo t b c v.0.1 w (omega arith)
fail_all_reaches lo (t ∷ u ∷ ts) b c w v n h =
    let b' = record_failure none (λ _. t) b in
    let (c', w', e) = fail_more lo t b c v.0.1 w (omega arith) in
    let kept =
      All-append (λ x. (lo ≤ x) × (x ≤ lo + b.config.failure_window)) b.window (t ∷ []) w
        (v.0, tt) in
    fail_all_reaches lo (u ∷ ts) b' c' (rw (e, w') kept)
      (subst (λ (k : Config). Within lo k.failure_window (u ∷ ts)) (sym e) v.1) (omega arith)
      (rw (e, w') (omega (arith, length-snoc b.window t)))

-- From a new breaker, failures within one window of each other, as many as the threshold at most,
-- leave it closed while they are fewer and open it when they are as many.
pub fail_all_trips :
    (c : Config) (now lo : ℕ) (ts : List ℕ)
    → Within lo c.failure_window ts
    → 0 < length ts
    → length ts ≤ c.failure_threshold
    → (fail_all ts (new c now)).state
      ≡ (if ltb (length ts) c.failure_threshold then closed else open_)
unfolding new
fail_all_trips c now lo ts w n h = elim (Bool-cases (ltb (length ts) c.failure_threshold)) [
  | inl less ↦ rw less (fail_all_below lo ts (new c now) refl tt w (omega tests))
  | inr full ↦ rw full (fail_all_reaches lo ts (new c now) refl tt w n (ground arith))
]
