-- ===== src/Runtime/Breaker/Probes.antt =====
-- Callers interleave: each holds the ticket of a reserved probe until it completes it, in any order,
-- while others call the breaker too.
use redops.Base.{
  ℕ, ◌+◌, ◌-◌, ◌≤◌, ◌<◌, ◌≡◌, ◌≢◌, ◌⊎◌, refl, true, none, some, List, [], ◌∷◌, ◌++◌, ◌==◌,
  if◌then◌else◌, arith, Clock, All,
}
use redops.Runtime.Breaker.{is_half_open, Config, Breaker, new, acquire}
use redops.Runtime.Breaker.Episode.{Request, to_acquire, serve, IsSound, serve-IsSound, new-IsSound}

-- How many tickets are of a generation.
unfoldable pub live : ℕ → List ℕ → ℕ
live g [] = 0
live g (t ∷ ts) = (if t == g then 1 else 0) + live g ts

-- A breaker, and the tickets of the probes that are under way.
pub record Traffic : Type 0 where
  pub breaker : Breaker
  pub tickets : List ℕ

-- How a probe ends: a success, a failure, or a release that records nothing.
pub data Outcome : Type 0 where
  succeeded failed released : Outcome

request_of : Outcome → ℕ → Request
request_of succeeded g = Request.success (some g)
request_of failed g = Request.failure (some g)
request_of released g = Request.to_release g

-- The call that ends a probe presents its ticket.
unfoldable pub finish : Outcome → ℕ → Clock → Breaker → Breaker
unfolding request_of serve
finish o g now b = serve (request_of o g) now b

-- One more ticket, if the admission reserved a slot.
unfoldable pub admit : Clock → Traffic → Traffic
admit now s =
    let (b, a) = acquire now s.breaker in
    record { breaker = b; tickets = if a.reserved then a.generation ∷ s.tickets else s.tickets }

-- A request of a caller without a ticket.
pub data IsPlain : Request → Type 0 where
  reads : IsPlain Request.to_read
  asks : IsPlain Request.to_ask
  resets : IsPlain Request.to_reset
  looks : IsPlain Request.to_snapshot
  succeeds : IsPlain (Request.success none)
  fails : IsPlain (Request.failure none)

pub data Step (s : Traffic) : Traffic → Type 0 where
  enter : (now : Clock) → Step s (admit now s)
  leave :
      (o : Outcome) (g : ℕ) (now : Clock) (xs ys : List ℕ)
      → s.tickets ≡ xs ++ (g ∷ ys)
      → Step s (record { breaker = finish o g now s.breaker; tickets = xs ++ ys })
  call :
      (q : Request) (now : Clock)
      → IsPlain q
      → Step s (record { breaker = serve q now s.breaker; tickets = s.tickets })

pub data Reach (s : Traffic) : Traffic → Type 0 where
  here : Reach s s
  next : {t u : Traffic} → Reach s t → Step t u → Reach s u

-- No ticket is of a later generation.
abbrev pub AtMost : ℕ → List ℕ → Type 0
AtMost g = All λ t. t ≤ g

-- The slots taken are the tickets of the current generation.
pub record IsAccounted (s : Traffic) : Type 0 where
  pub sound : IsSound s.breaker
  pub exact : s.breaker.in_flight ≡ live s.breaker.generation s.tickets
  pub past : AtMost s.breaker.generation s.tickets

live-append : (g : ℕ) (xs ys : List ℕ) → live g (xs ++ ys) ≡ live g xs + live g ys
unfolding live
live-append g [] ys = omega arith
live-append g (x ∷ xs) ys = omega (arith, live-append g xs ys)

live_later : (g h : ℕ) (ts : List ℕ) → AtMost g ts → g < h → live h ts ≡ 0
unfolding live
live_later g h [] p q = refl
live_later g h (t ∷ ts) p q = ground (arith, live_later g h ts)

AtMost-mono : (g h : ℕ) (ts : List ℕ) → AtMost g ts → g ≤ h → AtMost h ts
AtMost-mono g h [] p q = tt
AtMost-mono g h (t ∷ ts) p q = (omega arith, AtMost-mono g h ts p.1 q)

AtMost-without :
    (g t : ℕ) (xs ys : List ℕ) → AtMost g (xs ++ (t ∷ ys)) → (t ≤ g) × AtMost g (xs ++ ys)
AtMost-without g t [] ys p = p
AtMost-without g t (x ∷ xs) ys p = let (a, b) = AtMost-without g t xs ys p.1 in (a, (p.0, b))

live-without :
    (g t : ℕ) (xs ys : List ℕ)
    → live g (xs ++ (t ∷ ys)) ≡ (if t == g then 1 else 0) + live g (xs ++ ys)
unfolding live
live-without g t [] ys = refl
live-without g t (x ∷ xs) ys = omega (arith, live-without g t xs ys)

-- What a call does to the generation and the slots: either it starts a new generation with no slot
-- taken, or both stay.
abbrev Renews : Breaker → Breaker → Type 0
Renews b b' = (b'.generation ≡ b.generation + 1) × (b'.in_flight ≡ 0)

plain_slots :
    (q : Request) (now : Clock) (b : Breaker)
    → IsPlain q
    → Renews b (serve q now b)
      ⊎ ((serve q now b).generation ≡ b.generation) × ((serve q now b).in_flight ≡ b.in_flight)
unfolding serve
plain_slots q now b reads = ground arith
plain_slots q now b asks = ground arith
plain_slots q now b resets = ground arith
plain_slots q now b looks = ground arith
plain_slots q now b succeeds = ground arith
plain_slots q now b fails = ground arith

finish_slots :
    (o : Outcome) (g : ℕ) (now : Clock) (b : Breaker)
    → Renews b (finish o g now b)
      ⊎ ((finish o g now b).generation ≡ b.generation)
        × ((finish o g now b).in_flight ≡ b.in_flight - (if g == b.generation then 1 else 0))
unfolding finish
finish_slots succeeded g now b = ground arith
finish_slots failed g now b = ground arith
finish_slots released g now b = ground arith

acquire_slots :
    (now : Clock) (b : Breaker)
    → let (b', a) = acquire now b in
      (a.reserved ≡ true → a.generation ≡ b'.generation)
      × ((b'.generation ≡ b.generation)
            × (b'.in_flight ≡ b.in_flight + (if a.reserved then 1 else 0))
          ⊎ (b'.generation ≡ b.generation + 1) × (b'.in_flight ≡ (if a.reserved then 1 else 0)))
unfolding acquire
acquire_slots now b = ground arith

module _ (s : Traffic) (h : IsAccounted s) where
  enter-IsAccounted : (now : Clock) → IsAccounted (admit now s)
  unfolding admit live
  enter-IsAccounted now = record {
    sound = unfold serve in serve-IsSound to_acquire now s.breaker h.sound;
    exact = ground (
      arith,
      acquire_slots now s.breaker,
      live_later s.breaker.generation (s.breaker.generation + 1) s.tickets,
    );
    past = ground (
      arith,
      acquire_slots now s.breaker,
      AtMost-mono s.breaker.generation (acquire now s.breaker).0.generation s.tickets,
    );
  }

  leave-IsAccounted :
      (o : Outcome) (g : ℕ) (now : Clock) (xs ys : List ℕ)
      → s.tickets ≡ xs ++ (g ∷ ys)
      → IsAccounted (record { breaker = finish o g now s.breaker; tickets = xs ++ ys })
  leave-IsAccounted o g now xs ys e =
      let gen = s.breaker.generation in
      let gen' = (finish o g now s.breaker).generation in
      let left : (g ≤ gen) × AtMost gen (xs ++ ys) = AtMost-without gen g xs ys (rw e at h.past) in
      let held : s.breaker.in_flight ≡ live gen (xs ++ (g ∷ ys)) = rw e at h.exact in
      record {
        sound = unfold finish in serve-IsSound (request_of o g) now s.breaker h.sound;
        exact = ground (
          arith,
          held,
          finish_slots o g now s.breaker,
          live-without gen g xs ys,
          live_later gen (gen + 1) (xs ++ ys) left.1,
        );
        past =
            ground (arith, finish_slots o g now s.breaker, AtMost-mono gen gen' (xs ++ ys) left.1);
      }

  call-IsAccounted :
      (q : Request) (now : Clock)
      → IsPlain q
      → IsAccounted (record { breaker = serve q now s.breaker; tickets = s.tickets })
  call-IsAccounted q now plain = record {
    sound = serve-IsSound q now s.breaker h.sound;
    exact = ground (
      arith,
      plain_slots q now s.breaker plain,
      live_later s.breaker.generation (s.breaker.generation + 1) s.tickets,
    );
    past = ground (
      arith,
      plain_slots q now s.breaker plain,
      AtMost-mono s.breaker.generation (serve q now s.breaker).generation s.tickets,
    );
  }

Step-IsAccounted : {s t : Traffic} → IsAccounted s → Step s t → IsAccounted t
Step-IsAccounted {s} h (enter now) = enter-IsAccounted s h now
Step-IsAccounted {s} h (leave o g now xs ys e) = leave-IsAccounted s h o g now xs ys e
Step-IsAccounted {s} h (call q now plain) = call-IsAccounted s h q now plain

-- However the callers interleave, the slots taken are the tickets of the current generation.
pub Reach-IsAccounted : {s t : Traffic} → IsAccounted s → Reach s t → IsAccounted t
Reach-IsAccounted h here = h
Reach-IsAccounted h (next r step) = Step-IsAccounted (Reach-IsAccounted h r) step

abbrev pub quiet : Config → ℕ → Traffic
quiet c now = record { breaker = new c now; tickets = [] }

pub quiet-IsAccounted : (c : Config) (now : ℕ) → IsAccounted (quiet c now)
unfolding live
quiet-IsAccounted c now = record {
  sound = new-IsSound c now;
  exact = unfold new in refl;
  past = tt;
}

-- From a new breaker, however the callers interleave, no more than `half_open_max_calls` probes of
-- the current generation are under way, and none unless the breaker is in HALF_OPEN.
pub Reach-capped :
    (c : Config) (now : ℕ) (t : Traffic)
    → Reach (quiet c now) t
    → let probes = live t.breaker.generation t.tickets in
      (probes ≤ t.breaker.config.half_open_max_calls)
      × ((probes ≡ 0) ⊎ (is_half_open t.breaker.state ≡ true))
Reach-capped c now t r =
    let h = Reach-IsAccounted (quiet-IsAccounted c now) r in
    ground (arith, h.exact, h.sound.slots, h.sound.capped)

-- A probe of another generation than the breaker's changes nothing, whether it ends in a success, in
-- a failure or in a release.
pub finish_stale :
    (o : Outcome) (g : ℕ) (now : Clock) (b : Breaker) → g ≢ b.generation → finish o g now b ≡ b
unfolding finish
finish_stale succeeded g now b h = ground arith
finish_stale failed g now b h = ground arith
finish_stale released g now b h = ground arith
