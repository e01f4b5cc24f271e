-- ===== src/Tools/Spawn.antt =====
-- pkg/agent/tools/subagent.go: spawn_agent, which runs a subagent in a loop of its own.
pub mod Offered
use gonesis.Prelude.{
  ℕ, Text, codes, Option, none, some, List, [], ◌∷◌, ◌++◌, Result, ok, err, ◌≡◌, refl, true, false,
  arith, text_eq, ◌≢◌, sym, ◌∙◌, ap, append_assoc,
}
use gonesis.Provider.{Bytes, user, Message, ToolCall, ToolInfo, ExecError, Response, Env}
use gonesis.Provider.Loop.{
  Generate, LoopResult, answered, provider_failed, tool_done, run_agent_loop,
}
use gonesis.Provider.Transcript.{Rounds, failed, answer, last_tools, round, run_agent_loop-Rounds}
use gonesis.Provider.Batch.{IsFair}
use gonesis.Provider.Loop.{LoopEnd}
use gonesis.Registry.{Registry, list_tools, executor}
use gonesis.Tools.Subagent.{child_registry, has_text, final_text}

-- spawnAgentInput; `none` in the tools is the omitted list.
pub record SpawnInput : Type 0 where
  pub prompt : Text
  pub name : Text
  pub system_prompt : Text
  pub model : Text
  pub tools : Option (List Text)

pub data SpawnError : Type 0 where
  resolve_model : Text → Text → SpawnError
  loop_failed : Text → SpawnError
  loop_done : SpawnError

abbrev default_system_prompt : Text
default_system_prompt =
    codes "You are a helpful assistant. Complete the given task and provide a clear response."

unfoldable pub or_text : Text → Text → Text
or_text [] text = text
or_text (c ∷ s) text = c ∷ s

-- A tool set as the loop unpacks it: its definitions and its executor
abbrev pub ToolSet : Type 0 → Type 0
ToolSet W = List ToolInfo × (ToolCall → W → (Text × Option ExecError) × W)

-- The registry of a parent that may have none
unfoldable pub child_of_parent :
    {W : Type 0} → Option (Registry W) → Option (List Text) → Option (Option (Registry W))
unfolding child_registry
child_of_parent none tools = some none
child_of_parent (some r) tools = elim (child_registry r tools) [
  | none ↦ none
  | some child ↦ some (some child)
]

-- The wrapped callback of the parent, which carries the name of the subagent
unfoldable pub child_callback :
    {W : Type 0} → Option (Text → Bytes → Text → W → W) → Text → Text → Bytes → W → W
child_callback none agent_name name args w = w
child_callback (some parent_cb) agent_name name args w = parent_cb name args agent_name w

-- What spawn_agent makes of the end of the loop; `none` is a loop that ran out of fuel.
unfoldable pub spawn_output : {W : Type 0} → LoopResult W → Option (Result SpawnError Text × W)
unfolding final_text
spawn_output none = none
spawn_output (some (msgs, answered resp, w)) = some (ok (final_text msgs), w)
spawn_output (some (msgs, provider_failed e, w)) = some (err (loop_failed e), w)
spawn_output (some (msgs, tool_done resp, w)) = some (err loop_done, w)

-- ProviderResolver
abbrev pub Resolver : Type 0 → Type 0
Resolver W = Text → W → Result Text (Generate W) × W

unfoldable pub pick_provider :
    {W : Type 0} → Generate W → Option (Resolver W) → Text → W → Result SpawnError (Generate W) × W
pick_provider p resolve [] w = (ok p, w)
pick_provider p none (c ∷ model) w = (ok p, w)
pick_provider p (some resolve) (c ∷ model) w =
    let (r, w') = resolve (c ∷ model) w in
    elim r [ err e ↦ (err (resolve_model (c ∷ model) e), w') | ok resolved ↦ (ok resolved, w') ]

-- `nil_execute` is a call of the executor of a nil tool set, which has no tools, and `schedule` the
-- order in which the goroutines of a batch of calls complete.
module _ {W : Type 0} (nil_execute : ToolCall → W → (Text × Option ExecError) × W)
    (schedule : ℕ → W → List ℕ) (parent_cb : Option (Text → Bytes → Text → W → W)) where
  -- The child's tool set, nil if it has no tools; `none` is the panic of a name without a tool.
  unfoldable pub child_tool_set : Option (Registry W) → Option (ToolSet W)
  child_tool_set none = some ([], nil_execute)
  child_tool_set (some r) = elim (list_tools r) [
    | none ↦ none
    | some [] ↦ some ([], nil_execute)
    | some (t ∷ infos) ↦ some (t ∷ infos, executor r)
  ]

  unfoldable pub child_env : SpawnInput → (ToolCall → W → (Text × Option ExecError) × W) → Env W
  unfolding or_text child_callback
  child_env input execute = record {
    execute = execute;
    schedule = schedule;
    on_tool_call = child_callback parent_cb (or_text (input.name) (codes "subagent"));
  }

  -- The loop over the prompt, with the tools of the child
  unfoldable pub run_child : ℕ → SpawnInput → Generate W → ToolSet W → W → LoopResult W
  unfolding child_env or_text
  run_child fuel input p tools w =
      run_agent_loop (child_env input (tools.1)) p
        (or_text (input.system_prompt) default_system_prompt) (tools.0) fuel
        (record { role = user; content = input.prompt; tool_call_id = []; tool_calls = [] } ∷ []) w

  unfoldable pub run_with_tools :
      ℕ → SpawnInput → Generate W → Option (ToolSet W) → W → Option (Result SpawnError Text × W)
  unfolding spawn_output run_child
  run_with_tools fuel input p none w = none
  run_with_tools fuel input p (some tools) w = spawn_output (run_child fuel input p tools w)

  unfoldable pub run_with_child :
      ℕ
      → SpawnInput
      → Generate W
      → Option (Option (Registry W))
      → W
      → Option (Result SpawnError Text × W)
  unfolding child_tool_set run_with_tools
  run_with_child fuel input p none w = none
  run_with_child fuel input p (some child) w = run_with_tools fuel input p (child_tool_set child) w

  -- The function of newSpawnAgentTool
  unfoldable pub spawn_agent :
      ℕ
      → Generate W
      → Option (Registry W)
      → Option (Resolver W)
      → SpawnInput
      → W
      → Option (Result SpawnError Text × W)
  unfolding pick_provider child_of_parent run_with_child
  spawn_agent fuel default_provider reg resolve input w =
      let (picked, w') = pick_provider default_provider resolve (input.model) w in
      elim picked [
        | err e ↦ some (err e, w')
        | ok p ↦ run_with_child fuel input p (child_of_parent reg (input.tools)) w'
      ]

-- A message of the model with a text, at the end of the messages, is the text that is returned.
final_text-last :
    (ms : List Message) (m : Message) → has_text m ≡ true → final_text (ms ++ m ∷ []) ≡ m.content
unfolding final_text text_eq
final_text-last [] m h = simp h refl
final_text-last (x ∷ ms) m h =
    let last : final_text (ms ++ m ∷ []) ≡ m.content = final_text-last ms m h in
    let full : text_eq (m.content) [] ≡ false = ground (arith, h) in ground (arith, last, full)

failed_ne : (e : Text) (resp : Response) → provider_failed e ≢ answered resp
failed_ne e resp h = cc

done_ne : (r resp : Response) → tool_done r ≢ answered resp
done_ne r resp h = cc

answered_inj : (r resp : Response) → answered r ≡ answered resp → r ≡ resp
answered_inj r resp h = cc

-- The rounds of a loop that is answered end with the message of the answer.
Rounds-last :
    (ms : List Message) (end : LoopEnd) (resp : Response)
    → Rounds ms end
    → end ≡ answered resp
    → (init : List Message) × (ms ≡ init ++ resp.message ∷ [])
Rounds-last ms end resp (failed e none_new h) a = absurd (failed_ne e resp (sym h ∙ a))
Rounds-last ms end resp (answer r no_calls same h) a =
    let one : r ≡ resp = answered_inj r resp (sym h ∙ a) in
    ([], same ∙ ap (λ (x : Response). x.message ∷ []) one)
Rounds-last ms end resp (last_tools r results calls answers same h) a =
    absurd (done_ne r resp (sym h ∙ a))
Rounds-last ms end resp (round m results rest calls answers same more) a =
    let (init, last) = Rounds-last rest end resp more a in
    (
      m ∷ (results ++ init),
      same
          ∙ ap (λ x. m ∷ (results ++ x)) last
          ∙ ap (λ x. m ∷ x) (sym (append_assoc results init (resp.message ∷ []))),
    )

-- When the loop of a subagent ends with an answer of the model that has a text, spawn_agent returns
-- this text, whatever the rounds before it said; every goroutine of a batch completes.
pub spawn_agent-answer :
    {W : Type 0} (nil_execute : ToolCall → W → (Text × Option ExecError) × W)
    (schedule : ℕ → W → List ℕ) (parent_cb : Option (Text → Bytes → Text → W → W)) (fuel : ℕ)
    (input : SpawnInput) (p : Generate W) (tools : ToolSet W) (w w' : W) (out : List Message)
    (resp : Response)
    → IsFair (child_env nil_execute schedule parent_cb input (tools.1))
    → run_child nil_execute schedule parent_cb fuel input p tools w ≡ some (out, answered resp, w')
    → has_text (resp.message) ≡ true
    → run_with_tools nil_execute schedule parent_cb fuel input p (some tools) w
      ≡ some (ok (resp.message.content), w')
unfolding run_child run_with_tools spawn_output
spawn_agent-answer nil_execute schedule parent_cb fuel input p tools w w' out resp fair ends text =
    let asked : List Message =
      record { role = user; content = input.prompt; tool_call_id = []; tool_calls = [] } ∷ [] in
    let (new, grown, rounds) =
      run_agent_loop-Rounds (child_env nil_execute schedule parent_cb input (tools.1)) fair p
        (or_text (input.system_prompt) default_system_prompt) (tools.0) fuel asked out
        (answered resp) w w' ends in
    let (init, last) = Rounds-last new (answered resp) resp rounds refl in
    let whole : out ≡ (asked ++ init) ++ resp.message ∷ [] =
      grown ∙ ap (λ x. asked ++ x) last ∙ sym (append_assoc asked init (resp.message ∷ [])) in
    let shown : final_text out ≡ resp.message.content =
      ap final_text whole ∙ final_text-last (asked ++ init) (resp.message) text in
    ap spawn_output ends ∙ ap (λ t. some (ok t, w')) shown
