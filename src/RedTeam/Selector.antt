-- ===== src/RedTeam/Selector.antt =====
-- backend/app/redteam/engine/mutation_selector.py: when the campaign changes its mutation phase. The
-- averages of the strategies decide nothing here and are left out.
use redops.Base.{
  ℕ, ◌+◌, Bool, true, false, not, ◌&&◌, Option, none, some, List, [], ◌∷◌, ◌++◌, leb, ltb, length,
  last_or, if◌then◌else◌, Float,
}
use redops.RedTeam.Campaign.{
  MutationPhase, exploration, exploitation, adaptive, Effectiveness, Verdict, success, failure,
  Round,
}

pub data Trend : Type 0 where
  improving declining stable insufficient_data : Trend

is_improving : Trend → Bool
is_improving improving = true
is_improving _ = false

is_declining : Trend → Bool
is_declining declining = true
is_declining _ = false

is_success : Verdict → Bool
is_success success = true
is_success _ = false

is_failure : Verdict → Bool
is_failure failure = true
is_failure _ = false

module _ {F : Type 0} where
  judged : (Verdict → Bool) → Option (Effectiveness F) → Bool
  judged p none = false
  judged p (some e) = p e.semantic_verdict

  -- `semantic_successes` and `semantic_failures`
  count_judged : (Verdict → Bool) → List (Round F) → ℕ
  unfolding judged
  count_judged p [] = 0
  count_judged p (r ∷ rs) = (if judged p r.effectiveness then 1 else 0) + count_judged p rs

  -- `rounds[-3:]`
  last_three : List (Round F) → List (Round F)
  last_three [] = []
  last_three (r ∷ rs) = let rest = last_three rs in if ltb 3 (length (r ∷ rs)) then rest else r ∷ rs

  score_list : Option (Effectiveness F) → List F
  score_list none = []
  score_list (some e) = e.effectiveness_score ∷ []

  recent_scores : List (Round F) → List F
  unfolding score_list
  recent_scores [] = []
  recent_scores (r ∷ rs) = score_list r.effectiveness ++ recent_scores rs

module _ {F : Type 0} ⦃fl : Float F⦄ where
  -- `"improving" if recent_eff[-1] > recent_eff[0] else "declining"`, of two scores at least.
  trend_of : List F → Trend
  trend_of [] = stable
  trend_of (x ∷ []) = stable
  trend_of (x ∷ y ∷ ys) = if fl.gt (last_or y ys) x then improving else declining

  -- The trend that `analyze_history` finds.
  trend : List (Round F) → Trend
  unfolding trend_of recent_scores last_three
  trend [] = insufficient_data
  trend (r ∷ rs) = trend_of (recent_scores (last_three (r ∷ rs)))

  from_exploration : List (Round F) → Option MutationPhase
  unfolding trend count_judged is_success is_improving
  from_exploration rs =
      if leb 2 (count_judged is_success rs) && leb 5 (length rs)
      then some exploitation
      else if leb 5 (length rs) && not (is_improving (trend rs))
      then some exploitation
      else none

  from_exploitation : List (Round F) → Option MutationPhase
  unfolding trend count_judged is_failure is_declining
  from_exploitation rs =
      if leb 2 (count_judged is_failure rs)
      then some exploration
      else if is_declining (trend rs)
      then some exploration
      else none

  by_phase : MutationPhase → List (Round F) → Option MutationPhase
  unfolding from_exploration from_exploitation
  by_phase exploration rs = from_exploration rs
  by_phase exploitation rs = from_exploitation rs
  by_phase adaptive rs = none

  unfoldable pub recommend_phase_transition : List (Round F) → MutationPhase → Option MutationPhase
  unfolding by_phase
  recommend_phase_transition rs phase = if ltb (length rs) 3 then none else by_phase phase rs
