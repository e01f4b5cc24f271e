-- ===== src/Provider/Stream.antt =====
-- `RunAgentLoopStream` of pkg/provider/agent.go: the loop over a provider that streams its replies.
use gonesis.Prelude.{
  ℕ, zero, suc, Text, Bool, true, false, ◌||◌, Option, none, some, List, [], ◌∷◌, ◌++◌, Result, ok,
  err, ltb, if◌then◌else◌, ◌≡◌, refl, ap, ◌∙◌,
}
use mathlib.Core.Path.{fun_ext}
use gonesis.Provider.{
  ToolCall, Message, Usage, Response, ToolInfo, GenerateParams, Env, execute_tools_parallel, model,
}
use gonesis.Provider.Loop.{
  answered, provider_failed, tool_done, Generate, LoopResult, handle_tools, handle_message,
  handle_reply, run_agent_loop,
}

pub record StreamChunk : Type 0 where
  pub content : Text
  pub tool_calls : List ToolCall
  pub usage : Usage

-- The chunks that arrive on the channel, in order, and the error that follows, if any.
abbrev pub GenerateStream : Type 0 → Type 0
GenerateStream W = GenerateParams → W → (List StreamChunk × Option Text) × W

-- What the loop over the chunks has gathered: `fullContent`, `lastUsage` and `toolCalls`.
pub record Gathered : Type 0 where
  pub full_content : Text
  pub last_usage : Usage
  pub calls : List ToolCall

abbrev pub nothing : Gathered
nothing = record {
  full_content = [];
  last_usage = record { input_tokens = 0; output_tokens = 0 };
  calls = [];
}

pub gather : Gathered → StreamChunk → Gathered
gather g c = record {
  full_content = g.full_content ++ c.content;
  last_usage =
      if ltb 0 c.usage.input_tokens || ltb 0 c.usage.output_tokens then c.usage else g.last_usage;
  calls = g.calls ++ c.tool_calls;
}

-- The callback is told of each chunk that has content.
pub tell : {W : Type 0} → (Text → W → W) → Text → W → W
tell on_chunk [] w = w
tell on_chunk (c ∷ s) w = on_chunk (c ∷ s) w

unfoldable pub receive :
    {W : Type 0} → (Text → W → W) → List StreamChunk → Gathered → W → Gathered × W
unfolding gather tell
receive on_chunk [] g w = (g, w)
receive on_chunk (c ∷ cs) g w = receive on_chunk cs (gather g c) (tell on_chunk c.content w)

unfoldable pub response_of : Gathered → Response
response_of g = record {
  message = record {
    role = model;
    content = g.full_content;
    tool_call_id = [];
    tool_calls = g.calls;
  };
  usage = g.last_usage;
}

module _ {W : Type 0} (env : Env W) (generate_stream : GenerateStream W) (on_chunk : Text → W → W)
    (system_prompt : Text) (tools : List ToolInfo) where
  pub stream_tools :
      (List Message → W → LoopResult W)
      → List Message
      → Response
      → (List Message × Bool) × W
      → LoopResult W
  stream_tools next messages resp ((results, done), w) =
      let rest = next (messages ++ results) w in
      if done then some (messages ++ results, tool_done resp, w) else rest

  pub stream_message :
      (List Message → W → LoopResult W) → List Message → Response → List ToolCall → W → LoopResult W
  unfolding stream_tools
  stream_message next messages resp [] w = some (messages ++ resp.message ∷ [], answered resp, w)
  stream_message next messages resp (tc ∷ calls) w =
      stream_tools next (messages ++ resp.message ∷ []) resp
        (execute_tools_parallel env (tc ∷ calls) w)

  pub stream_reply :
      (List Message → W → LoopResult W) → List Message → Option Text → Gathered × W → LoopResult W
  unfolding stream_message
  stream_reply next messages (some e) (g, w) = some (messages, provider_failed e, w)
  stream_reply next messages none (g, w) =
      stream_message next messages (response_of g) (response_of g).message.tool_calls w

  -- `RunAgentLoopStream`
  unfoldable pub run_agent_loop_stream : ℕ → List Message → W → LoopResult W
  unfolding stream_reply receive
  run_agent_loop_stream zero messages w = none
  run_agent_loop_stream (suc fuel) messages w =
      let ((chunks, end), w') =
        generate_stream
          (record { system_prompt = system_prompt; messages = messages; tools = tools }) w in
      stream_reply (run_agent_loop_stream fuel) messages end (receive on_chunk chunks nothing w')

  -- The provider that gathers a stream and then replies at once.
  unfoldable pub replied : Option Text → Gathered × W → Result Text Response × W
  replied (some e) (g, w) = (err e, w)
  replied none (g, w) = (ok (response_of g), w)

  abbrev pub gathering : Generate W
  gathering params w =
      let ((chunks, end), w') = generate_stream params w in
      replied end (receive on_chunk chunks nothing w')

  stream_tools-eq :
      (next : List Message → W → LoopResult W) (messages : List Message) (resp : Response)
      (r : (List Message × Bool) × W)
      → stream_tools next messages resp r ≡ handle_tools env next messages resp r
  unfolding stream_tools handle_tools
  stream_tools-eq next messages resp ((results, true), w) = refl
  stream_tools-eq next messages resp ((results, false), w) = refl

  stream_message-eq :
      (next : List Message → W → LoopResult W) (messages : List Message) (resp : Response)
      (calls : List ToolCall) (w : W)
      → stream_message next messages resp calls w
        ≡ handle_message env next (messages ++ resp.message ∷ []) resp calls w
  unfolding stream_message handle_message
  stream_message-eq next messages resp [] w = refl
  stream_message-eq next messages resp (tc ∷ calls) w = stream_tools-eq next _ resp _

  stream_reply-eq :
      (next : List Message → W → LoopResult W) (messages : List Message) (end : Option Text)
      (g : Gathered × W)
      → stream_reply next messages end g ≡ handle_reply env next messages (replied end g)
  unfolding stream_reply handle_reply replied
  stream_reply-eq next messages (some e) (g, w) = refl
  stream_reply-eq next messages none (g, w) = stream_message-eq next messages (response_of g) _ w

  -- Streaming changes only when the text is seen: the loop does what the plain loop does over the
  -- provider that gathers each stream, with the same messages, end and effects, for any fuel.
  pub run_agent_loop_stream-eq :
      (fuel : ℕ) (messages : List Message) (w : W)
      → run_agent_loop_stream fuel messages w
        ≡ run_agent_loop env gathering system_prompt tools fuel messages w
  unfolding run_agent_loop_stream run_agent_loop
  run_agent_loop_stream-eq zero messages w = refl
  run_agent_loop_stream-eq (suc fuel) messages w =
      let params : GenerateParams = record {
        system_prompt = system_prompt;
        messages = messages;
        tools = tools;
      } in
      let ((chunks, end), w') = generate_stream params w in
      ap (λ next. stream_reply next messages end (receive on_chunk chunks nothing w'))
        (fun_ext (λ ms. fun_ext (λ w''. run_agent_loop_stream-eq fuel ms w'')))
      ∙ stream_reply-eq (run_agent_loop env gathering system_prompt tools fuel) messages end
          (receive on_chunk chunks nothing w')
