-- ===== src/RedTeam/Attack/Tally.antt =====
-- What holds of an `AttackRun` over every sequence of calls of its methods.
use redops.Base.{
  ℕ, ◌+◌, String, Bool, true, false, Option, List, [], ◌∷◌, is_some, ℤ, ◌≡◌, ◌≢◌, refl, ap, ◌∙◌,
  arith,
}
use redops.RedTeam.Attack.{
  starting, running, is_terminal, AttackRun, AttackCall, create, queue, start, complete, fail,
  cancel, record_scenario_result, record_campaign_results,
}

-- The methods that write, as requests.
pub data Request (D : Type 0) : Type 0 where
  to_queue : Request D
  to_start : ℤ → Request D
  to_complete : Request D
  to_fail : String → Request D
  to_cancel : Request D
  scenario_result : Bool → Bool → Request D
  campaign_results : D → Request D

-- What holds of a run between two calls: every result is counted in one of the three counters, there are
-- none before the start, and the times are those of the statuses.
pub record IsTallied {D : Type 0} (r : AttackRun D) : Type 0 where
  pub summed : r.items_completed ≡ r.items_passed + r.items_violated + r.items_failed
  pub unstarted : is_some r.started_at ≡ false → r.items_completed ≡ 0
  pub begun : r.status ≡ running → is_some r.started_at ≡ true
  pub ended : is_some r.completed_at ≡ is_terminal r.status
  pub settled : r.status ≢ starting

module _ {D : Type 0} where
  unfoldable pub serve : Request D → ℕ → AttackRun D → AttackCall D
  unfolding queue start complete fail cancel record_scenario_result record_campaign_results
  serve to_queue now r = queue r
  serve (to_start n) now r = start n now r
  serve to_complete now r = complete now r
  serve (to_fail text) now r = fail text now r
  serve to_cancel now r = cancel now r
  serve (scenario_result v e) now r = record_scenario_result v e r
  serve (campaign_results d) now r = record_campaign_results d r

  unfoldable pub serve_all : List (Request D × ℕ) → AttackRun D → AttackRun D
  serve_all [] r = r
  serve_all ((q, now) ∷ qs) r = serve_all qs (serve q now r).self

  serve-IsTallied :
      (q : Request D) (now : ℕ) (r : AttackRun D) → IsTallied r → IsTallied (serve q now r).self
  unfolding serve
  serve-IsTallied q now r h = ground (arith, h.summed, h.unstarted, h.begun, h.ended, h.settled)

  serve_all-IsTallied :
      (qs : List (Request D × ℕ)) (r : AttackRun D) → IsTallied r → IsTallied (serve_all qs r)
  unfolding serve_all
  serve_all-IsTallied [] r h = h
  serve_all-IsTallied ((q, now) ∷ qs) r h =
      serve_all-IsTallied qs (serve q now r).self (serve-IsTallied q now r h)

  create-IsTallied : (e : Option ℕ) (ids : List ℕ) → IsTallied (create {D = D} e ids)
  unfolding create
  create-IsTallied e ids = record {
    summed = refl;
    unstarted = λ h. refl;
    begun = λ h. cc;
    ended = refl;
    settled = λ h. cc;
  }

  -- Whatever is called on a new run: its results are all counted, each in one of the three counters; there
  -- are none before the start; a running run has a time of start, and a run has a time of completion
  -- exactly where its status is terminal; and no run is ever starting.
  pub serve_all-create-IsTallied :
      (qs : List (Request D × ℕ)) (e : Option ℕ) (ids : List ℕ)
      → IsTallied (serve_all qs (create e ids))
  serve_all-create-IsTallied qs e ids =
      serve_all-IsTallied qs (create e ids) (create-IsTallied e ids)

  -- A request to a run that is over changes the results of its campaign at most.
  served_over :
      (q : Request D) (now : ℕ) (r : AttackRun D)
      → is_terminal r.status ≡ true
      → let r' = (serve q now r).self in r' ≡ record r { campaign_results = r'.campaign_results }
  unfolding serve
  served_over q now r h = ground arith

  -- Whatever is called on a run that is over, it keeps all but the results of its campaign.
  pub serve_all_concluded :
      (qs : List (Request D × ℕ)) (r : AttackRun D)
      → is_terminal r.status ≡ true
      → let r' = serve_all qs r in r' ≡ record r { campaign_results = r'.campaign_results }
  unfolding serve_all
  serve_all_concluded [] r h = refl
  serve_all_concluded ((q, now) ∷ qs) r h =
      let same = served_over q now r h in
      let last = serve_all qs (serve q now r).self in
      serve_all_concluded qs (serve q now r).self
        (ap (λ (x : AttackRun D). is_terminal x.status) same ∙ h)
      ∙ ap (λ (x : AttackRun D). record x { campaign_results = last.campaign_results }) same
