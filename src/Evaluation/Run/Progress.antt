-- ===== src/Evaluation/Run/Progress.antt =====
-- backend/app/evaluation/application/run_handlers.py, `UpdateRunProgressHandler.handle`: a worker
-- reports cumulative totals, and the handler applies what they add to the run. The repository
-- is not modelled: the run is the one that it found.
use redops.Base.{
  ℕ, zero, suc, ◌+◌, ◌-◌, ◌*◌, ◌/◌, ◌<◌, ◌≤◌, ◌≡◌, Bool, ◌||◌, if◌then◌else◌, arith, max, ltb,
  Float, Clock,
}
use redops.Evaluation.Run.{
  EvaluationRun, record_item_success, record_item_failure, record_token_usage, record_cost,
  record_latency,
}

-- `UpdateRunProgressCommand`
pub record ProgressCommand (F : Type 0) : Type 0 where
  pub items_completed : ℕ
  pub items_failed : ℕ
  pub token_input : ℕ
  pub token_output : ℕ
  pub cost_usd : F
  pub latency_ms : ℕ

-- `max(a - b, 0.0)` of two floats, and the float as a condition.
pub record Excess (F : Type 0) : Type 0 where
  pub excess : F → F → F
  pub nonzero : F → Bool

module _ {F : Type 0} where
  successes : ℕ → Clock → EvaluationRun F → EvaluationRun F
  successes zero now r = r
  successes (suc n) now r = successes n now (record_item_success now r)

  failures : ℕ → Clock → EvaluationRun F → EvaluationRun F
  failures zero now r = r
  failures (suc n) now r = failures n now (record_item_failure now r)

  -- The two loops; the deltas are taken before them. All calls of one update write the same time.
  items : ProgressCommand F → Clock → EvaluationRun F → EvaluationRun F
  items c now r =
      let processed = c.items_completed - r.items_completed in
      let failed = c.items_failed - r.items_failed in
      failures failed now (successes (processed - failed) now r)

  -- What the loops and the writes that follow them leave alone.
  abbrev pub SameLife : EvaluationRun F → EvaluationRun F → Type 0
  SameLife r r' =
      (r'.status ≡ r.status)
      × (r'.version ≡ r.version)
      × (r'.items_total ≡ r.items_total)
      × (r'.events ≡ r.events)

  -- The counters that the command carries.
  abbrev pub Totals : ℕ → ℕ → ℕ → ℕ → EvaluationRun F → Type 0
  Totals done failed input output r =
      (r.items_completed ≡ done)
      × (r.items_failed ≡ failed)
      × (r.token_input ≡ input)
      × (r.token_output ≡ output)

  successes_lem :
      (n : ℕ) (now : Clock) (r : EvaluationRun F)
      → let r' = successes n now r in
        Totals (r.items_completed + n) r.items_failed r.token_input r.token_output r'
        × SameLife r r'
        × (r'.average_latency_ms ≡ r.average_latency_ms)
  unfolding successes record_item_success
  successes_lem zero now r = ground arith
  successes_lem (suc n) now r = ground (arith, successes_lem n now (record_item_success now r))

  failures_lem :
      (n : ℕ) (now : Clock) (r : EvaluationRun F)
      → let r' = failures n now r in
        Totals (r.items_completed + n) (r.items_failed + n) r.token_input r.token_output r'
        × SameLife r r'
        × (r'.average_latency_ms ≡ r.average_latency_ms)
  unfolding failures record_item_failure
  failures_lem zero now r = ground arith
  failures_lem (suc n) now r = ground (arith, failures_lem n now (record_item_failure now r))

  items_lem :
      (c : ProgressCommand F) (now : Clock) (r : EvaluationRun F)
      → let r' = items c now r in
        let processed = c.items_completed - r.items_completed in
        let failed = c.items_failed - r.items_failed in
        Totals
          (r.items_completed + max processed failed)
          (max r.items_failed c.items_failed)
          r.token_input
          r.token_output
          r'
        × SameLife r r'
        × (r'.average_latency_ms ≡ r.average_latency_ms)
  unfolding items
  items_lem c now r =
      let failed = c.items_failed - r.items_failed in
      let extra = c.items_completed - r.items_completed - failed in
      ground (arith, successes_lem extra now r, failures_lem failed now (successes extra now r))

  tokens : ProgressCommand F → Clock → EvaluationRun F → EvaluationRun F
  tokens c now r =
      let input = c.token_input - r.token_input in
      let output = c.token_output - r.token_output in
      if ltb 0 input || ltb 0 output then record_token_usage input output now r else r

  latency : ProgressCommand F → Clock → EvaluationRun F → EvaluationRun F
  latency c now r = if ltb 0 c.latency_ms then record_latency c.latency_ms now r else r

module _ {F : Type 0} ⦃fl : Float F⦄ (ex : Excess F) where
  cost : ProgressCommand F → Clock → EvaluationRun F → EvaluationRun F
  cost c now r =
      let delta = ex.excess c.cost_usd r.cost in
      if ex.nonzero delta then record_cost delta now r else r

  -- The handler, between `find_by_id` and `persist_progress`.
  unfoldable pub update_progress : ProgressCommand F → Clock → EvaluationRun F → EvaluationRun F
  unfolding successes failures items tokens cost latency
  update_progress c now r = latency c now (cost c now (tokens c now (items c now r)))

  -- What an update does to the counters, to the run's life, and to the average latency.
  update_progress_lem :
      (c : ProgressCommand F) (now : Clock) (r : EvaluationRun F)
      → let r' = update_progress c now r in
        let processed = c.items_completed - r.items_completed in
        let failed = c.items_failed - r.items_failed in
        Totals
          (r.items_completed + max processed failed)
          (max r.items_failed c.items_failed)
          (max r.token_input c.token_input)
          (max r.token_output c.token_output)
          r'
        × SameLife r r'
  unfolding update_progress record_token_usage record_cost record_latency
  update_progress_lem c now r = ground (arith, items_lem c now r)

  -- After an update whose newly failed items are no more than its newly processed ones, the processed
  -- and the failed items and the input and output tokens are each the larger of what they were and what
  -- was reported, and the run's status, version, total of items and events stand.
  pub update_progress-Totals :
      (c : ProgressCommand F) (now : Clock) (r : EvaluationRun F)
      → c.items_failed - r.items_failed ≤ c.items_completed - r.items_completed
      → Totals
          (max r.items_completed c.items_completed)
          (max r.items_failed c.items_failed)
          (max r.token_input c.token_input)
          (max r.token_output c.token_output)
          (update_progress c now r)
        × SameLife r (update_progress c now r)
  update_progress-Totals c now r h = ground (arith, update_progress_lem c now r)

  -- The same update, applied again, changes neither the items, nor the failures, nor the tokens.
  pub update_progress_twice :
      (c : ProgressCommand F) (now now' : Clock) (r : EvaluationRun F)
      → let r' = update_progress c now r in
        Totals r'.items_completed r'.items_failed r'.token_input r'.token_output
          (update_progress c now' r')
  update_progress_twice c now now' r =
      ground
        (arith, update_progress_lem c now r, update_progress_lem c now' (update_progress c now r))

  update_progress_average :
      (c : ProgressCommand F) (now : Clock) (r : EvaluationRun F)
      → 0 < c.latency_ms
      → 0 < (update_progress c now r).items_completed
      → let r' = update_progress c now r in
        let n = r'.items_completed in
        r'.average_latency_ms ≡ (r.average_latency_ms * n + c.latency_ms) / (n + 1)
  unfolding update_progress record_token_usage record_cost record_latency
  update_progress_average c now r h k = ground (arith, items_lem c now r)

  -- An update that reports a latency, repeated on a run that then has items, averages it in once more,
  -- with the weight of one item.
  pub update_progress_repeats_latency :
      (c : ProgressCommand F) (now now' : Clock) (r : EvaluationRun F)
      → 0 < c.latency_ms
      → 0 < (update_progress c now r).items_completed
      → let r' = update_progress c now r in
        let n = r'.items_completed in
        (update_progress c now' r').average_latency_ms
        ≡ (r'.average_latency_ms * n + c.latency_ms) / (n + 1)
  update_progress_repeats_latency c now now' r h k =
      let r' = update_progress c now r in
      ground (arith, update_progress_twice c now now' r, update_progress_average c now' r')
