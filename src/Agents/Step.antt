-- ===== src/Agents/Step.antt =====
-- backend/app/agents/domain/entities/agent_entities.py, `AgentStep`. An `InvalidAgentStepStateError` is
-- the raised status; the step's input is left out.
pub mod Retrying
use redops.Base.{
  ℕ, String, Bool, true, false, not, Option, none, some, ◌==◌, if◌then◌else◌, Clock, Call, return,
  raise,
}
use redops.Ai.{StepStatus, pending, running, completed, failed, skipped, cancelled, retrying}

abbrev pub step_position : StepStatus → ℕ
step_position pending = 0
step_position running = 1
step_position completed = 2
step_position failed = 3
step_position skipped = 4
step_position cancelled = 5
step_position retrying = 6

abbrev pub same_step_status : StepStatus → StepStatus → Bool
same_step_status a b = step_position a == step_position b

-- `_STEP_TERMINAL_STATES`
abbrev pub is_step_terminal : StepStatus → Bool
is_step_terminal completed = true
is_step_terminal failed = true
is_step_terminal skipped = true
is_step_terminal cancelled = true
is_step_terminal _ = false

-- What the step's own methods write of an `AgentStepResult`; the rest comes from the caller, as a
-- value of an abstract type with a default.
pub record StepResult (D : Type 0) : Type 0 where
  pub step_id : ℕ
  pub step_index : ℕ
  pub tool_name : String
  pub rest : D
  pub success : Bool
  pub error : Option String

pub record AgentStep (D : Type 0) : Type 0 where
  pub id : ℕ
  pub index : ℕ
  pub tool_name : String
  pub status : StepStatus
  pub result : Option (StepResult D)
  pub updated_at : ℕ

abbrev pub Method : Type 0 → Type 0
Method D = Clock → AgentStep D → Call (AgentStep D) StepStatus (Unit {0})

module _ {D : Type 0} where
  abbrev moved : Clock → AgentStep D → StepStatus → Call (AgentStep D) StepStatus (Unit {0})
  moved now step s = return (record step { status = s; updated_at = now 0 }) tt

  unfoldable pub start : Method D
  start now step =
      if not (same_step_status step.status pending)
      then raise step step.status
      else moved now step running

  unfoldable pub complete : StepResult D → Method D
  complete result now step =
      if not (same_step_status step.status running)
      then raise step step.status
      else moved now (record step { result = some result }) completed

  abbrev failure : D → AgentStep D → String → StepResult D
  failure nothing step error = record {
    step_id = step.id;
    step_index = step.index;
    tool_name = step.tool_name;
    rest = nothing;
    success = false;
    error = some error;
  }

  unfoldable pub fail : D → String → Method D
  fail nothing error now step =
      if same_step_status step.status completed
      then raise step step.status
      else moved now (record step { result = some (failure nothing step error) }) failed

  unfoldable pub retry : Method D
  retry now step =
      if not (same_step_status step.status failed)
      then raise step step.status
      else moved now step retrying

  unfoldable pub skip : Method D
  skip now step =
      if is_step_terminal step.status then raise step step.status else moved now step skipped

  unfoldable pub cancel : Method D
  cancel now step =
      if is_step_terminal step.status then raise step step.status else moved now step cancelled
