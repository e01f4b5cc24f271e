-- ===== src/Provider/Transcript.antt =====
-- What the agent loop appends to a conversation.
use gonesis.Prelude.{
  ℕ, zero, suc, Text, Bool, true, false, none, some, List, [], ◌∷◌, ◌++◌, Result, ok, err, ◌≡◌, ◌≢◌,
  refl, sym, ◌∙◌, map, append-nil, append_assoc,
}
use mathlib.Core.Path.{subst}
use gonesis.Provider.{ToolCall, Message, Response, ToolInfo, Env, execute_tools_parallel, tool}
use gonesis.Provider.Batch.{IsFair, ids-execute_tools_parallel, roles-execute_tools_parallel}
use gonesis.Provider.Loop.{
  LoopEnd, answered, provider_failed, tool_done, Generate, LoopResult, handle_tools, handle_message,
  handle_reply, run_agent_loop,
}

-- The results are tool messages that answer the calls, one each, in their order.
pub record Answers (calls : List ToolCall) (results : List Message) : Type 0 where
  pub ids : map (λ m. m.tool_call_id) results ≡ map (λ tc. tc.id) calls
  pub roles : map (λ m. m.role) results ≡ map (λ tc. tool) calls

-- Messages of rounds: a model message with tool calls, and behind it an answer to each call; the
-- last round may be a message with no calls. The second index is how the loop ended.
pub data Rounds : List Message → LoopEnd → Type 0 where
  failed :
      {ms : List Message} {end : LoopEnd} (e : Text)
      → ms ≡ []
      → end ≡ provider_failed e
      → Rounds ms end
  answer :
      {ms : List Message} {end : LoopEnd} (resp : Response)
      → resp.message.tool_calls ≡ []
      → ms ≡ resp.message ∷ []
      → end ≡ answered resp
      → Rounds ms end
  last_tools :
      {ms : List Message} {end : LoopEnd} (resp : Response) (results : List Message)
      → resp.message.tool_calls ≢ []
      → Answers resp.message.tool_calls results
      → ms ≡ resp.message ∷ results
      → end ≡ tool_done resp
      → Rounds ms end
  round :
      {ms : List Message} {end : LoopEnd} (m : Message) (results rest : List Message)
      → m.tool_calls ≢ []
      → Answers m.tool_calls results
      → ms ≡ m ∷ (results ++ rest)
      → Rounds rest end
      → Rounds ms end

abbrev pub Extends : List Message → List Message → LoopEnd → Type 0
Extends messages out end = (new : List Message) × (out ≡ messages ++ new) × Rounds new end

-- A run that comes to an end has only extended the messages it was given, by whole rounds.
abbrev pub Good : {W : Type 0} → List Message → LoopResult W → Type 0
Good messages none = Unit
Good messages (some (out, end, w)) = Extends messages out end

after_round :
    {W : Type 0} (messages : List Message) (m : Message) (results : List Message) (r : LoopResult W)
    → m.tool_calls ≢ []
    → Answers m.tool_calls results
    → Good ((messages ++ m ∷ []) ++ results) r
    → Good messages r
after_round messages m results none some_call a g = tt
after_round messages m results (some (out, end, w)) some_call a (new, e, rs) = (
  m ∷ (results ++ new),
  e
      ∙ append_assoc (messages ++ m ∷ []) results new
      ∙ append_assoc messages (m ∷ []) (results ++ new),
  round m results new some_call a refl rs,
)

module _ {W : Type 0} (env : Env W) (fair : IsFair env) (next : List Message → W → LoopResult W)
    (good : (ms : List Message) (w : W) → Good ms (next ms w)) where
  Answers-execute_tools_parallel :
      (calls : List ToolCall) (w : W) → Answers calls (execute_tools_parallel env calls w).0.0
  Answers-execute_tools_parallel calls w = record {
    ids = ids-execute_tools_parallel env fair calls w;
    roles = roles-execute_tools_parallel env fair calls w;
  }

  handle_tools-Good :
      (messages : List Message) (resp : Response) (r : (List Message × Bool) × W)
      → resp.message.tool_calls ≢ []
      → Answers resp.message.tool_calls r.0.0
      → Good messages (handle_tools env next (messages ++ resp.message ∷ []) resp r)
  unfolding handle_tools
  handle_tools-Good messages resp ((results, true), w) some_call a = (
    resp.message ∷ results,
    append_assoc messages (resp.message ∷ []) results,
    last_tools resp results some_call a refl refl,
  )
  handle_tools-Good messages resp ((results, false), w) some_call a =
      after_round messages resp.message results _ some_call a
        (good ((messages ++ resp.message ∷ []) ++ results) w)

  handle_message-Good :
      (messages : List Message) (resp : Response) (calls : List ToolCall) (w : W)
      → resp.message.tool_calls ≡ calls
      → Good messages (handle_message env next (messages ++ resp.message ∷ []) resp calls w)
  unfolding handle_message
  handle_message-Good messages resp [] w e = (resp.message ∷ [], refl, answer resp e refl refl)
  handle_message-Good messages resp (tc ∷ calls) w e =
      handle_tools-Good messages resp (execute_tools_parallel env (tc ∷ calls) w)
        (λ none_called. cc) (rw e (Answers-execute_tools_parallel (tc ∷ calls) w))

  handle_reply-Good :
      (messages : List Message) (r : Result Text Response × W)
      → Good messages (handle_reply env next messages r)
  unfolding handle_reply
  handle_reply-Good messages (err e, w) = ([], sym (append-nil messages), failed e refl refl)
  handle_reply-Good messages (ok resp, w) =
      handle_message-Good messages resp resp.message.tool_calls w refl

module _ {W : Type 0} (env : Env W) (fair : IsFair env) (generate : Generate W)
    (system_prompt : Text) (tools : List ToolInfo) where
  pub run_agent_loop-Good :
      (fuel : ℕ) (messages : List Message) (w : W)
      → Good messages (run_agent_loop env generate system_prompt tools fuel messages w)
  unfolding run_agent_loop
  run_agent_loop-Good zero messages w = tt
  run_agent_loop-Good (suc fuel) messages w =
      handle_reply-Good env fair (run_agent_loop env generate system_prompt tools fuel)
        (run_agent_loop-Good fuel) messages _

  -- A loop that ends, in whichever way, returns the messages that it was given followed by whole
  -- rounds: each model message with tool calls is followed by a tool message for each call, with the
  -- call's id, in the order of the calls. The last round fits the way in which it ended.
  pub run_agent_loop-Rounds :
      (fuel : ℕ) (messages out : List Message) (end : LoopEnd) (w w' : W)
      → run_agent_loop env generate system_prompt tools fuel messages w ≡ some (out, end, w')
      → (new : List Message) × (out ≡ messages ++ new) × Rounds new end
  run_agent_loop-Rounds fuel messages out end w w' e =
      subst (Good messages) e (run_agent_loop-Good fuel messages w)
