-- ===== src/Agents.antt =====
-- backend/app/agents/domain: the life of an agent's run and of its steps.
pub mod Step
pub mod Transitions
pub mod Run
pub mod Trajectory
pub mod Tools
pub mod Recorder
pub mod Loop
mod Tests
