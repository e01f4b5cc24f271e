-- ===== src/Provider.antt =====
-- pkg/provider/provider.go and pkg/provider/agent.go: the messages of a conversation, one tool call,
-- and the tool calls of one model message, which run in parallel.
-- The model behind a provider, the tools and the observers of tool calls are parameters. They act on
-- a world `W`, which stands for all that they read and change. Debug logging is left out.
pub mod Batch
pub mod Loop
pub mod Transcript
pub mod Termination
pub mod Stream
pub mod Schedule
mod Tests
use gonesis.Prelude.{
  ℕ, Text, codes, Bool, true, false, ◌||◌, Option, none, some, List, [], ◌∷◌, ◌++◌, if◌then◌else◌,
  ltb, length, get_elem?, set, take, replicate,
}

abbrev pub Bytes : Type 0
Bytes = List ℕ

pub data Role : Type 0 where
  user model tool : Role

-- The arguments are named; a value is kept as `%v` prints it, which is all that this code reads.
pub record ToolCall : Type 0 where
  pub args : List (Bytes × Bytes)
  pub id : Text
  pub name : Text
  pub thought_signature : Bytes

pub record Message : Type 0 where
  pub role : Role
  pub content : Text
  pub tool_call_id : Text
  pub tool_calls : List ToolCall

pub record Usage : Type 0 where
  pub input_tokens : ℕ
  pub output_tokens : ℕ

pub record Response : Type 0 where
  pub message : Message
  pub usage : Usage

-- The name and description of a tool; its parameter schema only goes through to the model.
pub record ToolInfo : Type 0 where
  pub name : Text
  pub description : Text

pub record GenerateParams : Type 0 where
  pub system_prompt : Text
  pub messages : List Message
  pub tools : List ToolInfo

-- The error of a tool: the sentinel `ErrDone`, or a real one.
pub data ExecError : Type 0 where
  err_done : ExecError
  failed : Text → ExecError

pub format_arg : Bytes × Bytes → Bytes
format_arg (k, v) = k ++ codes ": " ++ v

-- strings.Join of the formatted arguments by ", "
pub join_args : List (Bytes × Bytes) → Bytes
unfolding format_arg
join_args [] = []
join_args (a ∷ []) = format_arg a
join_args (a ∷ b ∷ args) = format_arg a ++ codes ", " ++ join_args (b ∷ args)

-- `FormatToolArgs`
pub format_tool_args : List (Bytes × Bytes) → ℕ → Bytes
unfolding join_args
format_tool_args [] max_len = []
format_tool_args (a ∷ args) max_len =
    let result = join_args (a ∷ args) in
    if ltb max_len (length result) then take max_len result ++ codes "..." else result

-- What the loop is given from outside: the tools, the order in which the goroutines of one batch
-- complete, and the callback that is told of each call.
pub record Env (W : Type 0) : Type 0 where
  pub execute : ToolCall → W → (Text × Option ExecError) × W
  pub schedule : ℕ → W → List ℕ
  pub on_tool_call : Text → Bytes → W → W

-- `result` and `done` of `executeOne`.
pub rendered : Text × Option ExecError → Text
rendered (result, none) = result
rendered (result, some err_done) = result
rendered (result, some (failed msg)) = codes "Error: " ++ msg

pub is_done : Option ExecError → Bool
is_done none = false
is_done (some err_done) = true
is_done (some (failed msg)) = false

-- The message that carries a tool's result.
pub reply_of : ToolCall → Text × Option ExecError → Message
unfolding rendered
reply_of tc r = record { role = tool; content = rendered r; tool_call_id = tc.id; tool_calls = [] }

abbrev blank_message : Message
blank_message = record { role = user; content = []; tool_call_id = []; tool_calls = [] }

module _ {W : Type 0} (env : Env W) where
  -- `executeOne`
  pub execute_one : ToolCall → W → (Message × Bool) × W
  execute_one tc w =
      let told = env.on_tool_call tc.name (format_tool_args tc.args 100) w in
      let (r, w') = env.execute tc told in ((reply_of tc r, is_done r.1), w')

  -- The goroutines of a batch, in the order in which they complete: each fills its own slot, and
  -- sets the flag if its tool is done.
  pub execute_in_order :
      List ℕ → List ToolCall → List Message → Bool → W → (List Message × Bool) × W
  execute_in_order [] calls msgs done w = ((msgs, done), w)
  execute_in_order (i ∷ order) calls msgs done w = elim (get_elem? calls i) [
    | none ↦ execute_in_order order calls msgs done w
    | some tc ↦
        let (r, w') = execute_one tc w in
        execute_in_order order calls (set msgs i r.0) (done || r.1) w'
  ]

  -- `executeToolsParallel`
  pub execute_tools_parallel : List ToolCall → W → (List Message × Bool) × W
  execute_tools_parallel calls w =
      execute_in_order (env.schedule (length calls) w) calls
        (replicate (length calls) blank_message) false w
