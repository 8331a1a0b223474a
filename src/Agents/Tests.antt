-- ===== src/Agents/Tests.antt =====
-- The theorems on backend/app/agents, applied to concrete steps and runs.
use redops.Base.{ℕ, ◌+◌, ◌≡◌, ◌||◌, ◌&&◌, true, List, [], ◌∷◌, Clock, pos, whole}
use redops.Ai.{running, cancelled, same_status, CancellationReason}
use redops.Agents.Transitions.{
  can_transition_to, machine_can_transition, can_transition_to-machine_can_transition,
}
use redops.Agents.Run.{Setup, new_run}
use redops.Agents.Run.Orderly.{
  Request, to_queue, to_start, step_failure, to_fail, to_cancel, IsOrderly, serve_all,
  new_run-IsOrderly, serve_all-IsOrderly,
}

abbrev noon : Clock
noon i = 43_200_000_000 + i

can_transition_to-machine_can_transition_example : can_transition_to running cancelled ≡ (
    machine_can_transition running cancelled
    || (same_status running running && same_status cancelled cancelled))
can_transition_to-machine_can_transition_example =
    can_transition_to-machine_can_transition running cancelled

abbrev the_setup : Setup
the_setup = record {
  id = 1;
  agent_name = "scout";
  provider_name = "openai";
  model_id = "small";
  timeout_seconds = 300;
}

abbrev requests : List (Request ℕ × Clock)
requests =
    (to_queue, noon)
    ∷ (to_start (pos 2), noon)
    ∷ (step_failure, noon)
    ∷ (to_fail "rate_limited" "slow down", noon)
    ∷ (to_cancel CancellationReason.user_cancelled true, noon)
    ∷ []

serve_all-IsOrderly_example : IsOrderly (serve_all requests (new_run 0 0 the_setup))
serve_all-IsOrderly_example =
    serve_all-IsOrderly requests (new_run 0 0 the_setup) (new_run-IsOrderly 0 the_setup)
