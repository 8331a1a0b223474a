-- ===== src/Evaluation.antt =====
-- backend/app/evaluation/domain: the life of an evaluation run and of its items.
pub mod StateMachine
pub mod Item
pub mod RunData
pub mod Run
pub mod Orchestration
pub mod Workflow
mod Tests
