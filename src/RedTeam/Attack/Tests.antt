-- ===== src/RedTeam/Attack/Tests.antt =====
-- The theorems on attack runs and definitions, applied to concrete ones.
use redops.Base.{ℕ, true, false, none, some, List, [], ◌∷◌, pos, ◌≡◌, refl}
use redops.RedTeam.Budget.{Category}
use redops.RedTeam.Attack.{create}
use redops.RedTeam.Attack.Tally
use redops.RedTeam.Attack.Blueprint

abbrev requests : List (Tally.Request (Unit {0}) × ℕ)
requests =
    (Tally.to_queue, 10)
    ∷ (Tally.to_start (pos 2), 20)
    ∷ (Tally.scenario_result true false, 30)
    ∷ (Tally.scenario_result true true, 40)
    ∷ (Tally.scenario_result false false, 50)
    ∷ (Tally.to_complete, 60)
    ∷ (Tally.to_cancel, 70)
    ∷ (Tally.campaign_results tt, 80)
    ∷ []

-- More results than items: the run counts three of two.
ended : (Tally.serve_all requests (create none (4 ∷ []))).items_completed ≡ 3
unfolding Tally.serve_all Tally.serve create
ended = refl

serve_all-create-IsTallied_example :
    Tally.IsTallied (Tally.serve_all requests (create none (4 ∷ [])))
serve_all-create-IsTallied_example = Tally.serve_all-create-IsTallied requests none (4 ∷ [])

abbrev definition : Blueprint.AttackDefinition (Unit {0}) (Unit {0})
definition = record {
  name = "probe";
  description = "";
  category = Category.jailbreak;
  severity = Blueprint.Severity.high;
  template = tt;
  parameters = tt;
  tags = [];
  status = Blueprint.DefinitionStatus.active;
  version = 2;
  events = [];
}

abbrev changes : Blueprint.Changes (Unit {0}) (Unit {0})
changes = record {
  name = some " other ";
  description = none;
  category = none;
  severity = none;
  template = none;
  parameters = none;
  tags = none;
}

abbrev edits : List (Blueprint.Request (Unit {0}) (Unit {0}))
edits = Blueprint.to_update changes ∷ Blueprint.to_archive ∷ []

serve_all_fixed_example :
    Blueprint.SameContent definition (Blueprint.serve_all edits definition)
    × (Blueprint.is_editable (Blueprint.serve_all edits definition).status ≡ false)
serve_all_fixed_example = Blueprint.serve_all_fixed edits definition refl
