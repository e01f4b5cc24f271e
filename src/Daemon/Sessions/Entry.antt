-- ===== src/Daemon/Sessions/Entry.antt =====
-- pkg/daemon/sessions.go: the calls that the socket handler and the Telegram bot make for a turn, and
-- the readers of a session.
use gonesis.Prelude.{ℕ, Text, Option, none, List, []}
use gonesis.Provider.{Bytes, Message}
use gonesis.Todo.{TodoList}
use gonesis.Daemon.Sessions.{
  ManagedSession, SessionManager, Callbacks, TurnResult, run_turn_internal,
}

-- `Messages` and `Todos`
abbrev pub messages_of : {V : Type 0} → ManagedSession V → List Message
messages_of sess = sess.messages

abbrev pub todos_of : {V : Type 0} → ManagedSession V → TodoList
todos_of sess = sess.todos

-- The callbacks of the raw forms, which have none for the todo list.
abbrev pub raw_callbacks :
    {V : Type 0}
    → Option (Text → V → V)
    → Option (Text → Bytes → V → V)
    → Option (Text → V → V)
    → Callbacks V
raw_callbacks on_chunk on_tool_call on_inform = record {
  on_chunk = on_chunk;
  on_tool_call = on_tool_call;
  on_inform = on_inform;
  on_todo_snapshot = none;
}

module _ {V P : Type 0} where
  -- `RunTurnStream`
  abbrev pub run_chat_turn : ℕ → Text → Text → Callbacks V → SessionManager V P → V → TurnResult V P
  run_chat_turn fuel id input cb sm w = run_turn_internal fuel id input [] cb sm w

  -- `RunSkillTurnStream`
  abbrev pub run_skill_turn :
      ℕ → Text → Text → Text → Callbacks V → SessionManager V P → V → TurnResult V P
  run_skill_turn fuel id skill_content user_input cb sm w =
      run_turn_internal fuel id user_input skill_content cb sm w

  -- `RunTurnStreamRaw`
  abbrev pub run_chat_turn_raw :
      ℕ
      → Text
      → Text
      → Option (Text → V → V)
      → Option (Text → Bytes → V → V)
      → Option (Text → V → V)
      → SessionManager V P
      → V
      → TurnResult V P
  run_chat_turn_raw fuel id input on_chunk on_tool_call on_inform =
      run_chat_turn fuel id input (raw_callbacks on_chunk on_tool_call on_inform)

  -- `RunSkillTurnStreamRaw`
  abbrev pub run_skill_turn_raw :
      ℕ
      → Text
      → Text
      → Text
      → Option (Text → V → V)
      → Option (Text → Bytes → V → V)
      → Option (Text → V → V)
      → SessionManager V P
      → V
      → TurnResult V P
  run_skill_turn_raw fuel id skill_content user_input on_chunk on_tool_call on_inform =
      run_skill_turn fuel id skill_content user_input
        (raw_callbacks on_chunk on_tool_call on_inform)
