-- ===== src/Memory.antt =====
-- The transcript that the memory agent reviews, and the agent itself: pkg/agent/memory.go. Texts are
-- lists of bytes.
pub mod Truncate
pub mod Transcript
mod Tests
use gonesis.Prelude.{
  ℕ, zero, suc, length, Text, codes, text_eq, Bool, true, false, ◌&&◌, ◌||◌, Option, none, some,
  List, [], ◌∷◌, ◌++◌, if◌then◌else◌, leb, ltb, take, get_elem?, Result, ok, err,
}
use gonesis.Dict.{Dict, lookup, insert}
use gonesis.Registry.{Tool, executor, new_registry}
use gonesis.Strconv.{itoa}
use gonesis.Strings.{join}
use gonesis.Provider.{
  Bytes, Role, user, model, tool, Message, ToolCall, ToolInfo, ExecError, err_done, failed, Env,
}
use gonesis.Provider.Loop.{
  Generate, LoopResult, LoopEnd, answered, provider_failed, tool_done, run_agent_loop,
}

abbrev assistant_message_max_chars : ℕ
assistant_message_max_chars = 1500

abbrev tool_result_keep_max_chars : ℕ
tool_result_keep_max_chars = 300

abbrev consecutive_tool_collapse : ℕ
consecutive_tool_collapse = 3

-- The entries of the transcript: a rendered text, or a marker of a tool call
pub data Entry : Type 0 where
  text_entry : Text → Entry
  call_entry : Text → Entry

-- The top bits of s[n] are 10; the callers keep n below the length.
unfoldable pub is_continuation : Text → ℕ → Bool
is_continuation s n = elim (get_elem? s n) [ none ↦ false | some b ↦ leb 128 b && ltb b 192 ]

-- The loop of safeTruncate
unfoldable pub walk_back : Text → ℕ → ℕ
unfolding is_continuation
walk_back s zero = zero
walk_back s (suc n) = let rest = walk_back s n in if is_continuation s (suc n) then rest else suc n

unfoldable pub safe_truncate : Text → ℕ → Text
unfolding walk_back
safe_truncate s n = if leb (length s) n then s else take (walk_back s n) s

unfoldable pub shorten : ℕ → Text → Text
unfolding safe_truncate
shorten n s = if ltb n (length s) then safe_truncate s n ++ codes "..." else s

unfoldable pub keeps_result : Text → Bool
keeps_result name = text_eq name (codes "read_memory") || text_eq name (codes "list_models")

-- toolNames[id], the empty name if it is missing
unfoldable pub name_at : Dict Text → Text → Text
name_at names id = elim (lookup id names) [ none ↦ [] | some name ↦ name ]

unfoldable pub note_calls : Dict Text → List ToolCall → Dict Text
note_calls names [] = names
note_calls names (tc ∷ calls) = note_calls (insert (tc.id) (tc.name) names) calls

unfoldable pub call_entries : List ToolCall → List Entry
call_entries [] = []
call_entries (tc ∷ calls) = call_entry (tc.name) ∷ call_entries calls

unfoldable pub assistant_entries : Text → List Entry
assistant_entries [] = []
assistant_entries (c ∷ s) = text_entry (codes "**Assistant:** " ++ c ∷ s) ∷ []

unfoldable pub result_entries : Text → Text → List Entry
unfolding keeps_result shorten
result_entries name content =
    if keeps_result name
    then text_entry (
        codes "**Tool result ("
        ++ (name ++ (codes "):** " ++ shorten tool_result_keep_max_chars content)))
      ∷ []
    else []

-- The length of the run of calls of one tool at the start of the entries
unfoldable pub run_length : Text → List Entry → ℕ
run_length name [] = zero
run_length name (text_entry t ∷ es) = zero
run_length name (call_entry other ∷ es) =
    let rest = run_length name es in if text_eq other name then suc rest else zero

abbrev called : Text → Text
called name = codes "**Assistant** called tool `" ++ (name ++ codes "`")

unfoldable pub repeat_call : Text → ℕ → Text
repeat_call name zero = []
repeat_call name (suc n) = called name ++ (codes "\n\n" ++ repeat_call name n)

-- The mark of a count is the bytes of a multiplication sign.
unfoldable pub render_run : Text → ℕ → Text
unfolding itoa repeat_call
render_run name n =
    if ltb consecutive_tool_collapse n
    then called name ++ (32 ∷ 195 ∷ 151 ∷ (itoa n ++ codes "\n\n"))
    else repeat_call name n

-- The second loop of formatTranscript. The first argument counts the entries of a run that is already
-- rendered, up to the index j.
unfoldable pub collapse : ℕ → List Entry → Text
unfolding render_run run_length
collapse skip [] = []
collapse (suc skip) (e ∷ es) = collapse skip es
collapse zero (text_entry t ∷ es) = t ++ (codes "\n\n" ++ collapse zero es)
collapse zero (call_entry name ∷ es) =
    let n = run_length name es in render_run name (suc n) ++ collapse n es

module _ (trim_space : Text → Text) (fields : Text → List Text) where
  unfoldable pub compact_trimmed : Text → Text
  unfolding shorten join
  compact_trimmed [] = []
  compact_trimmed (c ∷ s) = shorten assistant_message_max_chars (join 32 (fields (c ∷ s)))

  unfoldable pub compact_assistant : Text → Text
  unfolding compact_trimmed
  compact_assistant s = compact_trimmed (trim_space s)

  -- The entries of one message, with the names of the calls before it
  unfoldable pub message_entries : Role → Dict Text → Message → List Entry
  unfolding name_at call_entries assistant_entries result_entries compact_assistant
  message_entries user names m = text_entry (codes "**User:** " ++ m.content) ∷ []
  message_entries model names m =
      assistant_entries (compact_assistant (m.content)) ++ call_entries (m.tool_calls)
  message_entries tool names m = result_entries (name_at names (m.tool_call_id)) (m.content)

  unfoldable pub names_after : Role → Dict Text → Message → Dict Text
  unfolding note_calls
  names_after user names m = names
  names_after model names m = note_calls names (m.tool_calls)
  names_after tool names m = names

  -- The first loop of formatTranscript
  unfoldable pub entries_of : Dict Text → List Message → List Entry
  unfolding message_entries names_after
  entries_of names [] = []
  entries_of names (m ∷ ms) =
      message_entries (m.role) names m ++ entries_of (names_after (m.role) names m) ms

  unfoldable pub format_transcript : List Message → Text
  unfolding collapse entries_of
  format_transcript ms = collapse zero (entries_of [] ms)

-- The function of the tool write_memory; the write to the home acts on the world.
unfoldable pub write_memory :
    {W : Type 0} → (Text → W → Option Text × W) → Text → W → (Text × Option ExecError) × W
write_memory write [] w = (([], some (failed (codes "content must not be empty"))), w)
write_memory write (c ∷ s) w =
    let (e, w') = write (c ∷ s) w in
    elim e [
      | none ↦ ((codes "ok", some err_done), w')
      | some msg ↦ (([], some (failed (codes "writing MEMORY.md: " ++ msg))), w')
    ]

unfoldable pub current_text : Text → Text
current_text [] = codes "(empty " ++ (226 ∷ 128 ∷ 148 ∷ codes " no existing memory)")
current_text (c ∷ s) = c ∷ s

unfoldable pub user_text : Text → Text → Text
unfolding current_text
user_text transcript current_memory =
    codes "## Conversation Transcript\n\n"
    ++ (transcript
        ++ (codes "\n\n## Current MEMORY.md\n\n"
            ++ (current_text current_memory
                ++ codes
                    "\n\nReview the conversation above and call `write_memory` with the updated memory content.")))

-- The error that RunMemoryAgent makes of the end of the loop; `none` outside is a loop that ran out of
-- fuel.
unfoldable pub memory_error : {W : Type 0} → LoopResult W → Option (Option Text × W)
memory_error none = none
memory_error (some (msgs, answered resp, w)) = some (none, w)
memory_error (some (msgs, provider_failed e, w)) = some (some (codes "memory agent: " ++ e), w)
memory_error (some (msgs, tool_done resp, w)) = some (none, w)

-- RunMemoryAgent, with the tool that tool.NewTool makes of write_memory; `schedule` is the order in
-- which the goroutines of a batch of calls complete.
module _ {W : Type 0} (trim_space : Text → Text) (fields : Text → List Text) (prompt : Text)
    (generate : Generate W) (schedule : ℕ → W → List ℕ) (write_memory_tool : Tool W) where
  abbrev memory_env : Env W
  memory_env = record {
    execute = executor (new_registry (write_memory_tool ∷ []));
    schedule = schedule;
    on_tool_call = λ name args w. w;
  }

  unfoldable pub run_memory_agent : ℕ → List Message → Text → W → Option (Option Text × W)
  unfolding memory_error user_text format_transcript
  run_memory_agent fuel messages current_memory w = memory_error (
      run_agent_loop memory_env generate prompt (write_memory_tool.definition ∷ []) fuel
        (record {
          role = user;
          content = user_text (format_transcript trim_space fields messages) current_memory;
          tool_call_id = [];
          tool_calls = [];
        }
          ∷ [])
        w)
