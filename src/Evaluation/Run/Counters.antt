-- ===== src/Evaluation/Run/Counters.antt =====
-- The counters of a run: the running average of the latency, and the two writes that a refused
-- call leaves behind.
use native.Mathlib.Nat.{le-div_iff_mul-le, div-lt_iff_lt-mul}
use redops.Base.{ℕ, ◌+◌, ◌*◌, ◌/◌, ◌≤◌, ◌<◌, ◌≡◌, Bool, true, false, arith, pos, some, Clock, is_ok}
use redops.Ai.{starting, is_terminal, CancellationReason}
use redops.Evaluation.StateMachine.Table.{transition_accepted, follows}
use redops.Evaluation.Run.{
  EvaluationRun, context, start, cancel, record_item_success, record_latency,
}

div_bounds :
    (lo hi a l c : ℕ)
    → lo ≤ a
    → a ≤ hi
    → lo ≤ l
    → l ≤ hi
    → (lo ≤ (a * c + l) / (c + 1)) × ((a * c + l) / (c + 1) ≤ hi)
div_bounds lo hi a l c p q r s =
    let below : lo * c ≤ a * c = grind arith in
    let above : a * c ≤ hi * c = grind arith in
    let low : lo * (c + 1) ≤ a * c + l = omega arith in
    let high : a * c + l < (hi + 1) * (c + 1) = omega arith in
    let k : 0 < c + 1 = omega arith in
    ((le-div_iff_mul-le k).1 low, omega (arith, (div-lt_iff_lt-mul k).1 high))

module _ {F : Type 0} where
  -- `record_latency` leaves the average between any two bounds between which the old average and the new
  -- latency lie.
  pub record_latency_bounds :
      (lo hi l : ℕ) (now : Clock) (r : EvaluationRun F)
      → lo ≤ r.average_latency_ms
      → r.average_latency_ms ≤ hi
      → lo ≤ l
      → l ≤ hi
      → let avg = (record_latency l now r).average_latency_ms in (lo ≤ avg) × (avg ≤ hi)
  unfolding record_latency
  record_latency_bounds lo hi l now r p q s t =
      ground (arith, div_bounds lo hi r.average_latency_ms l r.items_completed)

  -- On a run without items and with average 0, a latency that is recorded after its item was counted
  -- gives half of it as the average.
  pub first_latency_halved :
      (l : ℕ) (now now' : Clock) (r : EvaluationRun F)
      → r.items_completed ≡ 0
      → r.average_latency_ms ≡ 0
      → (record_latency l now' (record_item_success now r)).average_latency_ms ≡ l / 2
  unfolding record_latency record_item_success
  first_latency_halved l now now' r z a = ground arith

  -- `start` on a run in a terminal status raises, and has overwritten the number of items, and no more.
  pub start_over :
      (n : ℕ) (now : Clock) (r : EvaluationRun F)
      → is_terminal r.status ≡ true
      → (is_ok (start (pos n) now r) ≡ false)
        × ((start (pos n) now r).self ≡ record r { items_total = n })
  unfolding start follows
  start_over n now r h =
      ground (
        arith,
        transition_accepted r.status starting (context false (record r { items_total = n })),
      )

  -- Where `cancel` on a run in a terminal status raises, it has overwritten the reason of the
  -- cancellation, and no more.
  pub cancel_over :
      (why : CancellationReason) (force : Bool) (now : Clock) (r : EvaluationRun F)
      → is_terminal r.status ≡ true
      → is_ok (cancel why force now r) ≡ false
      → (cancel why force now r).self ≡ record r { cancellation_reason = some why }
  unfolding cancel follows
  cancel_over why force now r h e = ground arith
