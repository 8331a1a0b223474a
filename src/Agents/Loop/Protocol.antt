-- ===== src/Agents/Loop/Protocol.antt =====
-- agent_loop.py: the tool calls and their results among the messages of the loop, and among those that
-- the provider is sent.
use redops.Base.{
  ◌<◌, String, if◌then◌else◌, Option, none, some, List, [], ◌∷◌, ◌++◌, Float, str_eq, ◌≡◌,
}
use redops.Agents.Tools.{Arguments, ToolRegistry}
use redops.Agents.Recorder.{Recorder}
use redops.Agents.Loop.{
  ToolCall, Environment, Progress, Ending, on, Message, system, user, assistant, tool,
  AgentLoopConfig, ProviderMessage, tool_result_content, tool_call_content,
}
use redops.Agents.Loop.Execute.{turn, start}

abbrev ids : List ToolCall → List String
ids [] = []
ids (tc ∷ tcs) = tc.tool_call_id ∷ ids tcs

-- The ids whose results are awaited after the messages, where `open` are awaited before them: each
-- message of a tool must answer the first, and nothing else may come while one is awaited.
unfoldable pub awaited : List String → List Message → Option (List String)
awaited open_ids [] = some open_ids
awaited [] (system text ∷ ms) = awaited [] ms
awaited [] (user text ∷ ms) = awaited [] ms
awaited [] (assistant text tcs ∷ ms) = awaited (ids tcs) ms
awaited [] (tool id c ∷ ms) = none
awaited (i ∷ is) (tool id c ∷ ms) = if str_eq i id then awaited is ms else none
awaited (i ∷ is) (m ∷ ms) = none

-- The ids of the tool calls that the assistant's messages make.
unfoldable pub requested_ids : List Message → List String
requested_ids [] = []
requested_ids (assistant text tcs ∷ ms) = ids tcs ++ requested_ids ms
requested_ids (_ ∷ ms) = requested_ids ms

-- The ids of the results, and of the calls, among the messages that a provider is sent.
unfoldable pub result_ids : List ProviderMessage → List String
result_ids [] = []
result_ids (m ∷ ms) = elim m.content [
  | tool_result_content id c ↦ id ∷ result_ids ms
  | _ ↦ result_ids ms
]

unfoldable pub call_ids : List ProviderMessage → List String
call_ids [] = []
call_ids (m ∷ ms) = elim m.content [
  | tool_call_content tc ↦ tc.tool_call_id ∷ call_ids ms
  | _ ↦ call_ids ms
]

module _ {T J F : Type 0} ⦃fl : Float F⦄ (js : Arguments J) (env : Environment T J F)
    (registry : ToolRegistry T) where
  -- No tool call waits for its result.
  abbrev IsAnswered : Progress J F → Type 0
  IsAnswered p = awaited [] p.messages ≡ some []

  abbrev Any : Ending → Progress J F → Type 0
  Any e q = Unit

  -- The heads of the loop that `execute` comes to.
  pub data Reaches (config : AgentLoopConfig) (text : String) (recorder : Option (Recorder J F))
      : Progress J F → Type 0 where
    begins : Reaches config text recorder (start js env registry config text recorder)
    turns :
        {p q : Progress J F}
        → Reaches config text recorder p
        → p.step_count < config.max_steps
        → turn js env registry p ≡ on q
        → Reaches config text recorder q
