-- ===== src/Runtime/Retry/Delay.antt =====
-- The delays between attempts: bounds, growth, and the two routines that compute them.
use mathlib.Core.Path.{subst}
use native.Mathlib.Nat.{mul-le-mul_left, pow-le-pow_right}
use redops.Base.{
  ℕ, ◌+◌, ◌*◌, ◌^◌, ◌≤◌, ◌<◌, ◌/◌, arith, ℤ, pos, negsuc, if◌then◌else◌, min, Bool, Result, ok,
  raised, ◌≡◌, refl, sym, ap, false, Bool-cases, inl, inr, ltb, ltb→lt,
}
use redops.Runtime.Retry.{
  BackoffStrategy, fixed, linear, exponential, RetryPolicy, OverflowError, overflow, doubled, grown,
  shifted, delay_for_attempt, calculate_delay,
}

-- What `random.uniform(-r, r)` promises.
abbrev pub IsUniform : (ℕ → ℤ) → Type 0
IsUniform uniform = (r : ℕ) → elim (uniform r) [ pos u ↦ u ≤ r | negsuc u ↦ u < r ]

-- Why the exponential strategy raises, and no other does.
abbrev pub Overflows : BackoffStrategy → ℕ → Type 0
Overflows s attempt = (s ≡ exponential) × (1024 ≤ attempt)

-- What an attempt `j` comes to, by the results of an attempt before it and of itself: it raises where
-- the exponential factor overflows; else it has a delay of at most the longest, and so has the
-- attempt before it, and a delay no longer.
abbrev pub Paces :
    BackoffStrategy → ℕ → ℕ → Result OverflowError ℕ → Result OverflowError ℕ → Type 0
Paces s longest j sooner (raised e) = Overflows s j
Paces s longest j sooner (ok late) =
    (late ≤ longest) × (¬ Overflows s j) × ((soon : ℕ) × (sooner ≡ ok soon) × (soon ≤ late))

abbrev capped : ℕ → Result OverflowError ℕ → Result OverflowError ℕ
capped longest g = elim g [ ok delay ↦ ok (min delay longest) | raised e ↦ raised e ]

doubled_ok : (base attempt : ℕ) → attempt < 1024 → doubled base attempt ≡ ok (base * 2 ^ attempt)
unfolding doubled
doubled_ok base attempt h = ground arith

doubled_raised : (base attempt : ℕ) → 1024 ≤ attempt → doubled base attempt ≡ raised overflow
unfolding doubled
doubled_raised base attempt h = ground arith

doubled-Paces :
    (base longest i j : ℕ)
    → i ≤ j
    → Paces exponential longest j
        (capped longest (doubled base i))
        (capped longest (doubled base j))
doubled-Paces base longest i j h = elim (Bool-cases (ltb j 1024)) [
  | inl e ↦
      let below = ltb→lt j 1024 e in
      let up = mul-le-mul_left base (pow-le-pow_right two h) in
      subst (λ x. Paces exponential longest j (capped longest x) (capped longest (doubled base j)))
        (sym (doubled_ok base i (omega arith)))
        (subst
          (λ y. Paces exponential longest j (ok (min (base * 2 ^ i) longest)) (capped longest y))
          (sym (doubled_ok base j below))
          (
            omega arith,
            λ o. omega (arith, o.1),
            (min (base * 2 ^ i) longest, refl, omega (arith, up)),
          ))
  | inr e ↦
      let late = ge_of j e in
      subst (λ y. Paces exponential longest j (capped longest (doubled base i)) (capped longest y))
        (sym (doubled_raised base j late)) (refl, late)
]
  where
    two : 0 < 2
    two = omega arith

    ge_of : (n : ℕ) → ltb n 1024 ≡ false → 1024 ≤ n
    ge_of n h = ground arith

grown-Paces :
    (s : BackoffStrategy) (base longest i j : ℕ)
    → i ≤ j
    → Paces s longest j (capped longest (grown s base i)) (capped longest (grown s base j))
unfolding grown
grown-Paces fixed base longest i j h =
    (omega arith, λ o. ground (arith, o.0), (min base longest, refl, omega arith))
grown-Paces linear base longest i j h =
    (omega arith, λ o. ground (arith, o.0), (min (base * (i + 1)) longest, refl, grind arith))
grown-Paces exponential base longest i j h = doubled-Paces base longest i j h

-- The delay of an attempt raises an OverflowError exactly where the strategy is exponential and the
-- attempt is 1024 or later; otherwise it is at most max_delay, and every earlier attempt has a delay
-- too, which is no longer.
pub delay_for_attempt_bounds :
    (p : RetryPolicy) (i j : ℕ)
    → i ≤ j
    → Paces p.backoff_strategy p.max_delay j (delay_for_attempt p i) (delay_for_attempt p j)
unfolding delay_for_attempt
delay_for_attempt_bounds p i j h = grown-Paces p.backoff_strategy p.base_delay p.max_delay i j h

near_shifted :
    (uniform : ℕ → ℤ) (jitter : Bool) (d : ℕ)
    → IsUniform uniform
    → let r = if jitter then d / 4 else 0 in
      let e = if jitter then shifted d (uniform (d / 4)) else d in (d ≤ e + r) × (e ≤ d + r)
unfolding shifted
near_shifted uniform jitter d u = ground (arith, u (d / 4))

near_of :
    (uniform : ℕ → ℤ) (jitter : Bool) (longest d : ℕ) (g : Result OverflowError ℕ)
    → IsUniform uniform
    → elim g [ ok long ↦ ok (min long longest) | raised e ↦ raised e ] ≡ ok d
    → let r = if jitter then d / 4 else 0 in
      (e : ℕ) × (elim g [
        | ok long ↦
            let delay = min long longest in
            ok (if jitter then shifted delay (uniform (delay / 4)) else delay)
        | raised e ↦ raised e
      ]
        ≡ ok e)
      × (d ≤ e + r)
      × (e ≤ d + r)
near_of uniform jitter longest d (raised e) u h = absurd (ground (arith, h))
near_of uniform jitter longest d (ok long) u h =
    let near = near_shifted uniform jitter d u in
    let same : min long longest ≡ d = ground (arith, h) in
    (
      if jitter then shifted d (uniform (d / 4)) else d,
      ap (λ x. ok (if jitter then shifted x (uniform (x / 4)) else x)) same,
      near.0,
      near.1,
    )

-- Where the policy has a delay, so has the evaluator: the same where there is no jitter, and one within
-- a quarter of it with.
pub calculate_delay_near :
    (uniform : ℕ → ℤ) (p : RetryPolicy) (i d : ℕ)
    → IsUniform uniform
    → delay_for_attempt p i ≡ ok d
    → let r = if p.jitter then d / 4 else 0 in
      (e : ℕ) × (calculate_delay uniform p i ≡ ok e) × (d ≤ e + r) × (e ≤ d + r)
unfolding delay_for_attempt calculate_delay
calculate_delay_near uniform p i d u h =
    near_of uniform p.jitter p.max_delay d (grown p.backoff_strategy p.base_delay i) u h
