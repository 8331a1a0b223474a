-- ===== src/Evaluation/Item.antt =====
-- backend/app/evaluation/domain/entities/evaluation_entities.py, `EvaluationItem`: one item of a run.
-- `raise InvalidItemStateError` is the raised status. The run's id and the raw row are left out.
pub mod Life
use redops.Base.{
  ℕ, ◌+◌, String, Bool, true, false, not, Option, some, ◌==◌, if◌then◌else◌, Clock, Call, return,
  raise,
}
use redops.Ai.{FailureReason}

-- evaluation_enums.py
pub data ItemStatus : Type 0 where
  pending running completed failed skipped cancelled : ItemStatus

abbrev pub item_position : ItemStatus → ℕ
item_position pending = 0
item_position running = 1
item_position completed = 2
item_position failed = 3
item_position skipped = 4
item_position cancelled = 5

abbrev pub same_item_status : ItemStatus → ItemStatus → Bool
same_item_status a b = item_position a == item_position b

-- `_ITEM_CANCELLED_TERMINAL_STATES`, the same set as `_ITEM_TERMINAL_STATES`.
abbrev pub is_item_terminal : ItemStatus → Bool
is_item_terminal completed = true
is_item_terminal failed = true
is_item_terminal skipped = true
is_item_terminal cancelled = true
is_item_terminal _ = false

-- What the item's own methods write of a result. `scores` and `cost_usd` come from the caller as
-- values of an abstract type `D`, with the default that a failed item gets.
pub record ItemResult (D : Type 0) : Type 0 where
  pub item_id : ℕ
  pub item_index : ℕ
  pub response : String
  pub scores_and_cost : D
  pub tokens_input : ℕ
  pub tokens_output : ℕ
  pub latency_ms : ℕ
  pub status : ItemStatus
  pub error : Option String
  pub failure_reason : Option FailureReason

pub record EvaluationItem (D : Type 0) : Type 0 where
  pub id : ℕ
  pub index : ℕ
  pub status : ItemStatus
  pub result : Option (ItemResult D)
  pub updated_at : ℕ

abbrev pub Method : Type 0 → Type 0
Method D = Clock → EvaluationItem D → Call (EvaluationItem D) ItemStatus (Unit {0})

module _ {D : Type 0} where
  -- `ItemResult.total_tokens`, `ItemResult.is_success`
  unfoldable pub total_tokens : ItemResult D → ℕ
  total_tokens r = r.tokens_input + r.tokens_output

  unfoldable pub is_success : ItemResult D → Bool
  is_success r = same_item_status r.status completed

  -- The tail of each method: the new status, then `touch()`.
  abbrev moved :
      Clock → EvaluationItem D → ItemStatus → Call (EvaluationItem D) ItemStatus (Unit {0})
  moved now item s = return (record item { status = s; updated_at = now 0 }) tt

  unfoldable pub start : Method D
  start now item =
      if not (same_item_status item.status pending)
      then raise item item.status
      else moved now item running

  unfoldable pub complete : ItemResult D → Method D
  complete result now item =
      if not (same_item_status item.status running)
      then raise item item.status
      else moved now (record item { result = some result }) completed

  -- `ItemResult(item_id=…, item_index=…, status=FAILED, error=…, failure_reason=…)`
  abbrev failure : D → EvaluationItem D → String → Option FailureReason → ItemResult D
  failure nothing item error reason = record {
    item_id = item.id;
    item_index = item.index;
    response = "";
    scores_and_cost = nothing;
    tokens_input = 0;
    tokens_output = 0;
    latency_ms = 0;
    status = failed;
    error = some error;
    failure_reason = reason;
  }

  unfoldable pub fail : D → String → Option FailureReason → Method D
  fail nothing error reason now item =
      if same_item_status item.status completed
      then raise item item.status
      else moved now (record item { result = some (failure nothing item error reason) }) failed

  unfoldable pub skip : Method D
  skip now item =
      if is_item_terminal item.status then raise item item.status else moved now item skipped

  unfoldable pub cancel : Method D
  cancel now item =
      if is_item_terminal item.status then raise item item.status else moved now item cancelled
