-- ===== src/Agents/Transitions.antt =====
-- The two tables of an agent run's transitions: that of backend/app/agents/domain/state_machine/
-- run_state_machine.py, and that of entities/agent_entities.py. A frozen set is a list.
use redops.Base.{◌≡◌, ◌||◌, ◌&&◌, Bool, List, [], ◌∷◌, any, arith}
use redops.Ai.{
  RunStatus, created, queued, starting, running, paused, cancelling, completed, failed, timedout,
  cancelled, same_status,
}

-- `_VALID_TRANSITIONS.get(status, frozenset())` of the state machine.
machine_targets : RunStatus → List RunStatus
machine_targets created = queued ∷ []
machine_targets queued = starting ∷ cancelled ∷ []
machine_targets starting = running ∷ failed ∷ cancelled ∷ []
machine_targets running = completed ∷ failed ∷ paused ∷ timedout ∷ cancelling ∷ []
machine_targets paused = running ∷ cancelled ∷ []
machine_targets cancelling = cancelled ∷ []
machine_targets _ = []

-- The same of the entity.
entity_targets : RunStatus → List RunStatus
entity_targets created = queued ∷ []
entity_targets queued = starting ∷ cancelled ∷ []
entity_targets starting = running ∷ failed ∷ cancelled ∷ []
entity_targets running = completed ∷ failed ∷ paused ∷ timedout ∷ cancelling ∷ cancelled ∷ []
entity_targets paused = running ∷ cancelled ∷ []
entity_targets cancelling = cancelled ∷ []
entity_targets _ = []

-- `AgentRunStateMachine.can_transition`
unfoldable pub machine_can_transition : RunStatus → RunStatus → Bool
unfolding machine_targets
machine_can_transition current target = any (same_status target) (machine_targets current)

-- `AgentRun._can_transition_to`
unfoldable pub can_transition_to : RunStatus → RunStatus → Bool
unfolding entity_targets
can_transition_to current target = any (same_status target) (entity_targets current)

-- The entity and the state machine allow the same transitions, except that from RUNNING to
-- CANCELLED, which the entity allows and the state machine does not.
pub can_transition_to-machine_can_transition :
    (s t : RunStatus)
    → can_transition_to s t
      ≡ (machine_can_transition s t || (same_status s running && same_status t cancelled))
unfolding can_transition_to machine_can_transition
can_transition_to-machine_can_transition created t = ground arith
can_transition_to-machine_can_transition s t = ground arith
