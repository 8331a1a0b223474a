-- ===== src/RedTeam/Attack.antt =====
-- backend/app/redteam/domain/entities.py, `AttackRun`. The results of a campaign are of an abstract type,
-- and the configuration, which no method reads, is left out. `now` is the reading of the clock of a call.
pub mod Tally
pub mod Blueprint
mod Tests
use redops.Base.{
  ℕ, ◌+◌, String, Bool, true, false, Option, none, some, List, [], ◌∷◌, ◌++◌, length, if◌then◌else◌,
  ℤ, pos, Call, return, raise,
}

pub data AttackStatus : Type 0 where
  created queued starting running completed failed cancelled : AttackStatus

-- `is_terminal`, by `_ATTACK_STATUS_TERMINAL`.
abbrev pub is_terminal : AttackStatus → Bool
is_terminal completed = true
is_terminal failed = true
is_terminal cancelled = true
is_terminal _ = false

-- The events of redteam/domain/events.py that an attack run raises.
pub data Event : Type 0 where
  run_created : Option ℕ → ℕ → Event
  run_queued : Event
  run_started : ℤ → Event
  run_completed : ℤ → ℕ → ℕ → ℕ → Event
  run_failed : String → Event
  run_cancelled : ℕ → Event

-- `ConflictError` and `DomainError`, with the status.
pub data AttackError : Type 0 where
  conflict_error domain_error : AttackStatus → AttackError

pub record AttackRun (D : Type 0) : Type 0 where
  pub evaluation_run_id : Option ℕ
  pub attack_definition_ids : List ℕ
  pub status : AttackStatus
  pub items_total : ℤ
  pub items_completed : ℕ
  pub items_passed : ℕ
  pub items_violated : ℕ
  pub items_failed : ℕ
  pub campaign_results : Option D
  pub started_at : Option ℕ
  pub completed_at : Option ℕ
  pub events : List Event

abbrev pub AttackCall : Type 0 → Type 0
AttackCall D = Call (AttackRun D) AttackError (Unit {0})

module _ {D : Type 0} where
  abbrev emit : Event → AttackRun D → AttackRun D
  emit e r = record r { events = r.events ++ (e ∷ []) }

  -- `create`
  unfoldable pub create : Option ℕ → List ℕ → AttackRun D
  create evaluation_run_id ids = record {
    evaluation_run_id = evaluation_run_id;
    attack_definition_ids = ids;
    status = created;
    items_total = pos 0;
    items_completed = 0;
    items_passed = 0;
    items_violated = 0;
    items_failed = 0;
    campaign_results = none;
    started_at = none;
    completed_at = none;
    events = run_created evaluation_run_id (length ids) ∷ [];
  }

  unfoldable pub queue : AttackRun D → AttackCall D
  queue r = elim r.status [
    | created ↦ return (emit run_queued (record r { status = queued })) tt
    | s ↦ raise r (conflict_error s)
  ]

  unfoldable pub start : ℤ → ℕ → AttackRun D → AttackCall D
  start total now r = elim r.status [
    | queued ↦
        return
          (emit (run_started total)
            (record r { status = running; items_total = total; started_at = some now }))
          tt
    | s ↦ raise r (conflict_error s)
  ]

  unfoldable pub complete : ℕ → AttackRun D → AttackCall D
  complete now r = elim r.status [
    | running ↦
        return
          (emit (run_completed r.items_total r.items_completed r.items_passed r.items_violated)
            (record r { status = completed; completed_at = some now }))
          tt
    | s ↦ raise r (conflict_error s)
  ]

  unfoldable pub fail : String → ℕ → AttackRun D → AttackCall D
  fail message now r =
      if is_terminal r.status
      then raise r (conflict_error r.status)
      else return
          (emit (run_failed message) (record r { status = failed; completed_at = some now })) tt

  unfoldable pub cancel : ℕ → AttackRun D → AttackCall D
  cancel now r =
      if is_terminal r.status
      then raise r (conflict_error r.status)
      else return
          (emit (run_cancelled r.items_completed)
            (record r { status = cancelled; completed_at = some now }))
          tt

  -- `record_scenario_result(is_violation=…, is_error=…)`
  unfoldable pub record_scenario_result : Bool → Bool → AttackRun D → AttackCall D
  record_scenario_result is_violation is_error r = elim r.status [
    | running ↦
        let counted = record r { items_completed = r.items_completed + 1 } in
        return
          (if is_error
            then record counted { items_failed = r.items_failed + 1 }
            else if is_violation
            then record counted { items_violated = r.items_violated + 1 }
            else record counted { items_passed = r.items_passed + 1 })
          tt
    | s ↦ raise r (domain_error s)
  ]

  unfoldable pub record_campaign_results : D → AttackRun D → AttackCall D
  record_campaign_results results r = return (record r { campaign_results = some results }) tt
