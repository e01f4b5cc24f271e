-- ===== src/Provider/Loop.antt =====
-- `RunAgentLoop` of pkg/provider/agent.go. The Go loop has no bound: here it takes fuel, one unit a
-- round, and `none` means that the fuel ran out.
use gonesis.Prelude.{
  ℕ, zero, suc, Text, Bool, true, false, Option, none, some, List, [], ◌∷◌, ◌++◌, Result, ok, err,
}
use gonesis.Provider.{
  ToolCall, Message, Response, ToolInfo, GenerateParams, Env, execute_tools_parallel,
}

-- How a loop ends: with an answer, with the provider's error, or because a tool was done.
pub data LoopEnd : Type 0 where
  answered : Response → LoopEnd
  provider_failed : Text → LoopEnd
  tool_done : Response → LoopEnd

-- The model behind the provider: one request, one reply or error.
abbrev pub Generate : Type 0 → Type 0
Generate W = GenerateParams → W → Result Text Response × W

abbrev pub LoopResult : Type 0 → Type 0
LoopResult W = Option (List Message × LoopEnd × W)

module _ {W : Type 0} (env : Env W) where
  -- What a round does with the reply of the provider; `next` is the rest of the loop.
  unfoldable pub handle_tools :
      (List Message → W → LoopResult W)
      → List Message
      → Response
      → (List Message × Bool) × W
      → LoopResult W
  handle_tools next messages resp ((results, true), w) =
      some (messages ++ results, tool_done resp, w)
  handle_tools next messages resp ((results, false), w) = next (messages ++ results) w

  unfoldable pub handle_message :
      (List Message → W → LoopResult W) → List Message → Response → List ToolCall → W → LoopResult W
  handle_message next messages resp [] w = some (messages, answered resp, w)
  handle_message next messages resp (tc ∷ calls) w =
      handle_tools next messages resp (execute_tools_parallel env (tc ∷ calls) w)

  unfoldable pub handle_reply :
      (List Message → W → LoopResult W) → List Message → Result Text Response × W → LoopResult W
  handle_reply next messages (err e, w) = some (messages, provider_failed e, w)
  handle_reply next messages (ok resp, w) =
      handle_message next (messages ++ resp.message ∷ []) resp resp.message.tool_calls w

module _ {W : Type 0} (env : Env W) (generate : Generate W) (system_prompt : Text)
    (tools : List ToolInfo) where
  -- `RunAgentLoop`
  unfoldable pub run_agent_loop : ℕ → List Message → W → LoopResult W
  unfolding handle_reply handle_message handle_tools
  run_agent_loop zero messages w = none
  run_agent_loop (suc fuel) messages w =
      handle_reply env (run_agent_loop fuel) messages
        (generate (record { system_prompt = system_prompt; messages = messages; tools = tools }) w)
