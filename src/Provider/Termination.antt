-- ===== src/Provider/Termination.antt =====
-- When the agent loop ends, and how much fuel it needs.
use gonesis.Prelude.{
  ℕ, zero, suc, ◌<◌, Text, Bool, true, false, none, some, List, [], ◌∷◌, ◌++◌, Result, ok, err, ◌≡◌,
  ◌≢◌, refl, arith,
}
use gonesis.Provider.{
  ToolCall, Message, Response, ToolInfo, GenerateParams, Env, execute_tools_parallel,
}
use gonesis.Provider.Loop.{
  LoopEnd, Generate, LoopResult, handle_tools, handle_message, handle_reply, run_agent_loop,
}

abbrev HasResult : {W : Type 0} → LoopResult W → Type 0
HasResult none = ⊥
HasResult (some r) = Unit

module _ {W : Type 0} (env : Env W) where
  -- The rest of the loop is only asked for a world in which `P` holds.
  handle_message-HasResult :
      (next : List Message → W → LoopResult W) (messages : List Message) (resp : Response)
      (calls : List ToolCall) (w : W)
      → ((ms : List Message)
          → calls ≢ []
          → (execute_tools_parallel env calls w).0.1 ≡ false
          → HasResult (next ms (execute_tools_parallel env calls w).1))
      → HasResult (handle_message env next messages resp calls w)
  unfolding handle_message handle_tools
  handle_message-HasResult next messages resp [] w h = tt
  handle_message-HasResult next messages resp (tc ∷ calls) w h =
      go (execute_tools_parallel env (tc ∷ calls) w) (λ ms e. h ms (λ e'. cc) e)
    where
      go :
          (r : (List Message × Bool) × W)
          → ((ms : List Message) → r.0.1 ≡ false → HasResult (next ms r.1))
          → HasResult (handle_tools env next messages resp r)
      go ((results, true), w') k = tt
      go ((results, false), w') k = k (messages ++ results) refl

module _ {W : Type 0} (env : Env W) (generate : Generate W) (system_prompt : Text)
    (tools : List ToolInfo) (rank : W → ℕ) where
  -- A round that goes on leaves a world of lower rank: the model calls tools only so often.
  pub record Tires : Type 0 where
    pub falls :
        (params : GenerateParams) (w w' : W) (resp : Response)
        → generate params w ≡ (ok resp, w')
        → resp.message.tool_calls ≢ []
        → (execute_tools_parallel env resp.message.tool_calls w').0.1 ≡ false
        → rank (execute_tools_parallel env resp.message.tool_calls w').1 < rank w

  abbrev request : List Message → GenerateParams
  request messages = record { system_prompt = system_prompt; messages = messages; tools = tools }

  handle_reply-HasResult :
      (t : Tires) (next : List Message → W → LoopResult W) (messages : List Message) (w : W)
      (r : Result Text Response × W)
      → ((ms : List Message) (w' : W) → rank w' < rank w → HasResult (next ms w'))
      → generate (request messages) w ≡ r
      → HasResult (handle_reply env next messages r)
  unfolding handle_reply
  handle_reply-HasResult t next messages w (err e, w') k e' = tt
  handle_reply-HasResult t next messages w (ok resp, w') k e' =
      handle_message-HasResult env next (messages ++ resp.message ∷ []) resp resp.message.tool_calls
        w'
        (λ ms some_call going_on.
          k ms _ (t.falls (request messages) w w' resp e' some_call going_on))

  run_agent_loop-HasResult :
      (t : Tires) (fuel : ℕ) (messages : List Message) (w : W)
      → rank w < fuel
      → HasResult (run_agent_loop env generate system_prompt tools fuel messages w)
  unfolding run_agent_loop
  run_agent_loop-HasResult t zero messages w h = elim h [ ]
  run_agent_loop-HasResult t (suc fuel) messages w h =
      handle_reply-HasResult t (run_agent_loop env generate system_prompt tools fuel) messages w
        (generate (request messages) w)
        (λ ms w' lower. run_agent_loop-HasResult t fuel ms w' (omega arith)) refl

some_of_HasResult : {W : Type 0} (r : LoopResult W) → HasResult r → (x : _) × (r ≡ some x)
some_of_HasResult none h = absurd h
some_of_HasResult (some x) h = (x, refl)

-- If each round that goes on lowers some rank of the world, the loop ends, and as many rounds as the
-- rank at the start, and one more, are enough.
pub run_agent_loop-ends :
    {W : Type 0} (env : Env W) (generate : Generate W) (system_prompt : Text)
    (tools : List ToolInfo) (rank : W → ℕ)
    → Tires env generate system_prompt tools rank
    → (fuel : ℕ) (messages : List Message) (w : W) → rank w < fuel
    → (r : List Message × LoopEnd × W) × (run_agent_loop env generate system_prompt tools fuel
          messages w
        ≡ some r)
run_agent_loop-ends env generate system_prompt tools rank t fuel messages w h =
    some_of_HasResult _
      (run_agent_loop-HasResult env generate system_prompt tools rank t fuel messages w h)
