-- ===== src/RedTeam/Campaign/Life.antt =====
-- campaign.py, `AdaptiveCampaign`, over every sequence of calls of its methods.
use redops.Base.{
  ℕ, ◌+◌, String, ◌≡◌, ◌≢◌, refl, true, false, none, List, [], ◌∷◌, ◌++◌, arith, is_some, Float,
  Clock, ok, return, is_ok, is_empty, strip, strip-strip,
}
use redops.RedTeam.Campaign.{
  created, is_terminal, is_active, MutationPhase, Round, Budget, Category, Campaign, CampaignCall,
  start, complete, fail, exhaust_budget, cancel, set_mutation_phase, record_round, create,
}

pub data Request (F : Type 0) : Type 0 where
  to_start to_complete to_exhaust to_cancel : Request F
  to_fail : String → Request F
  to_phase : MutationPhase → Request F
  to_record : Round F → Request F

module _ {F : Type 0} where
  -- The tokens of the rounds.
  unfoldable pub tokens_of : List (Round F) → ℕ
  tokens_of [] = 0
  tokens_of (r ∷ rs) = r.tokens_used + tokens_of rs

  tokens_of-snoc :
      (rs : List (Round F)) (r : Round F)
      → tokens_of (rs ++ (r ∷ [])) ≡ tokens_of rs + r.tokens_used
  unfolding tokens_of
  tokens_of-snoc [] r = omega arith
  tokens_of-snoc (x ∷ rs) r = omega (arith, tokens_of-snoc rs r)

module _ {F : Type 0} ⦃fl : Float F⦄ where
  -- The cost of the rounds, added up from a first cost in their order.
  unfoldable pub cost_of : F → List (Round F) → F
  cost_of acc [] = acc
  cost_of acc (r ∷ rs) = cost_of (fl.add acc r.cost_usd) rs

  cost_of-snoc :
      (acc : F) (rs : List (Round F)) (r : Round F)
      → cost_of acc (rs ++ (r ∷ [])) ≡ fl.add (cost_of acc rs) r.cost_usd
  unfolding cost_of
  cost_of-snoc acc [] r = refl
  cost_of-snoc acc (x ∷ rs) r = cost_of-snoc (fl.add acc x.cost_usd) rs r

  unfoldable pub serve : Request F → Clock → Campaign F → CampaignCall F
  unfolding start complete fail exhaust_budget cancel set_mutation_phase record_round
  serve to_start now c = start now c
  serve to_complete now c = complete now c
  serve to_exhaust now c = exhaust_budget now c
  serve to_cancel now c = cancel now c
  serve (to_fail why) now c = fail why now c
  serve (to_phase p) now c = return (set_mutation_phase p c) tt
  serve (to_record r) now c = record_round r c

  unfoldable pub serve_all : List (Request F × Clock) → Campaign F → Campaign F
  serve_all [] c = c
  serve_all ((q, now) ∷ qs) c = serve_all qs (serve q now c).self

  -- What holds of a campaign between two calls.
  pub record IsBalanced (c : Campaign F) : Type 0 where
    pub tokens : c.total_tokens ≡ tokens_of c.rounds
    pub cost : c.total_cost_usd ≡ cost_of fl.nought c.rounds
    pub fresh :
        c.state ≡ created → (c.rounds ≡ []) × (c.started_at ≡ none) × (c.completed_at ≡ none)
    pub begun : is_active c.state ≡ true → (is_some c.started_at ≡ true) × (c.completed_at ≡ none)
    pub done : is_terminal c.state ≡ true → is_some c.completed_at ≡ true

  -- A call on a campaign that raises leaves the campaign as it was.
  pub campaign_refused :
      (q : Request F) (now : Clock) (c : Campaign F)
      → is_ok (serve q now c) ≡ false
      → (serve q now c).self ≡ c
  unfolding serve
  campaign_refused to_start now c h = ground arith
  campaign_refused q now c h = ground arith

  serve-IsBalanced :
      (q : Request F) (now : Clock) (c : Campaign F)
      → IsBalanced c
      → IsBalanced (serve q now c).self
  unfolding serve
  serve-IsBalanced (to_record r) now c h =
      ground (arith, tokens_of-snoc c.rounds r, cost_of-snoc fl.nought c.rounds r)
  serve-IsBalanced q now c h = ground arith

  -- From a balanced campaign, every sequence of calls leads to a balanced one: its totals are those of its
  -- rounds, it has neither rounds nor times before its start, a start and no end while it is active, and
  -- an end once it is over.
  pub serve_all-IsBalanced :
      (qs : List (Request F × Clock)) (c : Campaign F) → IsBalanced c → IsBalanced (serve_all qs c)
  unfolding serve_all
  serve_all-IsBalanced [] c h = h
  serve_all-IsBalanced ((q, now) ∷ qs) c h =
      serve_all-IsBalanced qs (serve q now c).self (serve-IsBalanced q now c h)

  -- What a call leaves of a campaign that is over: all but the phase and the version.
  abbrev pub SameOutcome : Campaign F → Campaign F → Type 0
  SameOutcome c d =
      (d.state ≡ c.state)
      × (d.rounds ≡ c.rounds)
      × (d.total_tokens ≡ c.total_tokens)
      × (d.total_cost_usd ≡ c.total_cost_usd)
      × (d.completed_at ≡ c.completed_at)
      × (d.events ≡ c.events)

  serve_over :
      (q : Request F) (now : Clock) (c : Campaign F)
      → is_terminal c.state ≡ true
      → SameOutcome c (serve q now c).self
  unfolding serve
  serve_over to_start now c h = ground arith
  serve_over q now c h = ground arith

  -- A campaign in a terminal state keeps its state, rounds, totals, end and events under every sequence
  -- of calls.
  pub serve_all_over :
      (qs : List (Request F × Clock)) (c : Campaign F)
      → is_terminal c.state ≡ true
      → SameOutcome c (serve_all qs c)
  unfolding serve_all
  serve_all_over [] c h = (refl, refl, refl, refl, refl, refl)
  serve_all_over ((q, now) ∷ qs) c h =
      let d = (serve q now c).self in ground (arith, serve_over q now c h, serve_all_over qs d)

  abbrev pub Created : Campaign F → Type 0
  Created c =
      IsBalanced c
      × (strip c.name ≡ c.name)
      × (is_empty c.name ≡ false)
      × (is_empty c.target_provider ≡ false)
      × (is_empty c.target_model ≡ false)
      × (c.attack_categories ≢ [])
      × (c.state ≡ created)

  -- A campaign that `create` accepts is balanced, has a provider, a model, a name without blanks
  -- around it, and categories to attack.
  pub create-Created :
      (id : ℕ) (name provider model : String) (cs : List Category) (b : Budget F) {c : Campaign F}
      → create id name provider model cs b ≡ ok c
      → Created c
  unfolding create tokens_of cost_of
  create-Created id name provider model cs b h = ground (arith, strip-strip name)
