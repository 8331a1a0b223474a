-- ===== src/Lib.antt =====
-- RedOps evaluates language models and attacks them. This library models the parts of its backend
-- that decide: the life of an evaluation run and of its items, that of an agent's run and of its steps,
-- the loop that runs an agent with its tools, what stands between the platform and a provider's API,
-- adaptive red team campaigns and attack runs, schedules, and the order in which services start.
--
-- How the parts interact. An `EvaluationRun` asks `RunStateMachine` before each change of its
-- status, counts what the workers report, and raises events. `EvaluationOrchestrator` queues,
-- starts and ends a run, has it planned, and runs the stages of the plan. `EvaluationRunWorkflow`
-- does the same item by item, by way of activities. The runtime coordinator asks the circuit
-- breaker and the rate limiter before it calls a provider, and tells them how the call ended. The
-- campaign engine runs rounds against a target, records them in an `AdaptiveCampaign`, and stops
-- by the campaign's budget, by an early stop, by a cancellation or by an error. The agent loop
-- sends the messages to a provider, has a `SafeToolExecutor` call the tools of a `ToolRegistry`
-- that the response asks for, and tells a `TrajectoryRecorder`, whose trajectory is summed up by
-- `compute_trajectory_metrics` and kept as a dictionary.
--
-- Files and code (paths below backend/app):
--   Ai                        ai/core/enums.py
--   Evaluation/StateMachine   evaluation/domain/state_machine/run_state_machine.py; `Table` has its
--                             edges, and `Document` the transitions that
--                             docs/evaluation/STATE_MACHINE.md lists
--   Evaluation/Item           `EvaluationItem` of evaluation/domain/entities/evaluation_entities.py
--   Evaluation/Run            `EvaluationRun` of the same file, with its data in Evaluation/RunData;
--                             `Progress` is
--                             `UpdateRunProgressHandler` of evaluation/application/run_handlers.py
--   Evaluation/Orchestration  evaluation/orchestration and evaluation/execution: `Planner` is planner.py,
--                             `Stages`, `Scoring` and `Executor` are executor.py, and `Orchestrator`
--                             is orchestrator.py
--   Evaluation/Workflow       `EvaluationRunWorkflow` of evaluation/temporal/workflow.py
--   Agents/Step, Agents/Run   `AgentStep` and `AgentRun` of agents/domain/entities/agent_entities.py
--   Agents/Transitions        agents/domain/state_machine/run_state_machine.py, and the table of the
--                             entity
--   Agents/Trajectory         agents/domain/trajectory.py; `Metrics` is `compute_trajectory_metrics`,
--                             `Dictionary` is `to_dict` and its `Decode` is `from_dict`
--   Agents/Tools              agents/domain/tool_execution.py
--   Agents/Recorder           agents/runtime/trajectory_recorder.py
--   Agents/Loop               `execute` of agents/runtime/agent_loop.py
--   Scheduling                scheduling/domain.py
--   Kernel/Registry           kernel/service_registry/service_registry.py
--   Runtime/Breaker           providers/runtime/circuit_breaker/runtime_circuit_breaker.py
--   Runtime/Limiter           providers/runtime/rate_limit/rate_limiter.py; `Window` has the admission
--                             of providers/runtime/execution/runtime_coordinator.py
--   Runtime/Retry             providers/runtime/retry/retry_framework.py
--   Runtime/Coordinator       `execute` of providers/runtime/execution/runtime_coordinator.py
--   Runtime/Fallback          providers/runtime/fallback/fallback_chain.py
--   RedTeam/Campaign          redteam/domain/campaign.py; `Report` is `build_result`, and the limits
--                             and rounds stand in RedTeam/Budget and RedTeam/Round
--   RedTeam/Attack            `AttackRun` of redteam/domain/entities.py; `Blueprint` is
--                             `AttackDefinition`
--   RedTeam/Selector          `recommend_phase_transition` of redteam/engine/mutation_selector.py
--   RedTeam/Engine            redteam/engine/campaign_engine.py; `Loop` is `run_campaign`
--   Base                      what they share
-- A definition has the name of the method or function that it models, without leading underscores.
--
-- Conventions. A method that changes its object is a function to the object after the call, and, where
-- it may raise, to a `Call` that also holds what was returned or raised: what was assigned before a
-- `raise` stays assigned. A call reads the clock through `now`, in microseconds, where `now i` is
-- the reading with index `i` of that call; the readings need not agree, and theorems that want a
-- clock that does not go back say so. A float is a value of an abstract type with the operations
-- of `Float`, about which nothing is assumed. Ids are numbers. An `int` that the code keeps from being
-- negative is a natural number; subtraction is then written where the code cuts off at 0.
-- A handler's requests are a data type per class, and `serve_all` makes a sequence of calls.
--
-- Fuel. The loop of `run_campaign` takes fuel; a fuel above the rounds of the budget is enough,
-- since each turn either ends the loop or records a round. The loop of the coordinator's `execute`
-- runs over the range of the code. The loop of `AgentLoop.execute` takes `max_steps` as fuel,
-- which is enough since a turn that goes on has counted a step. `drain` of the start order takes
-- the number of services, which is enough since no service enters the queue twice. All other loops
-- are structural.
--
-- Parameters. The providers, the judge, the durable store, the random choice of a strategy and the
-- `cancelled` callback are an `Environment` of the engine, which answers by the number of the
-- round; it is arbitrary in every theorem. The provider, the clock and the other callers of the
-- coordinator are a `World` in the same way; the theorems on its slots say what they ask of the
-- other callers. The provider and the tools of the agent loop, and when it is cancelled, are an
-- `Environment` of that loop; `json.loads` and what is read of a value of JSON are `Arguments`.
-- The `start` and `stop` of services are functions of their names. The invocation of a provider
-- for a step, the metrics and the repositories of an evaluation are the `Environment` of its
-- stages and the `Services` of its orchestrator; an activity of the workflow is a value that says
-- whether it returns. The pattern of a cron expression is a test.
--
-- Not modelled: the HTTP API, the database, the workflow engine and its other workflows, the
-- adapters of the providers, the metrics and the frontend, which are input and output or
-- computations on texts; the managers that store checkpoints, the dependency container, the
-- planner of agents, the refinement of attack texts, and the entities of evaluation definitions
-- and experiments, into which the modelled methods do not look; a rate limiter whose policy is not
-- that of the coordinator that uses it; and the names, texts and settings that no modelled method
-- reads.
pub mod Base
pub mod Ai
pub mod Evaluation
pub mod Agents
pub mod Runtime
pub mod RedTeam
pub mod Kernel
pub mod Scheduling
