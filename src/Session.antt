-- ===== src/Session.antt =====
-- pkg/session/session.go: one turn of a conversation, with a reminder that goes to the model behind
-- the last user message and is taken out of the log again.
pub mod Reminder
pub mod Turn
mod Tests
use gonesis.Prelude.{
  ℕ, zero, suc, Text, Bool, true, false, Option, none, some, List, [], ◌∷◌, ◌++◌, set, get_elem?,
}
use gonesis.Provider.{Message, Role, ToolInfo, Env, user, model, tool}
use gonesis.Provider.Loop.{Generate, LoopEnd, LoopResult, run_agent_loop}
use gonesis.Provider.Stream.{GenerateStream, run_agent_loop_stream}

-- `Config`: the provider, the tools and their executor, and what is asked of the model. `OnDone` and
-- `Debug` are not used by a turn, or only log.
pub record Config (W : Type 0) : Type 0 where
  pub generate : Generate W
  pub generate_stream : GenerateStream W
  pub env : Env W
  pub system_prompt : Text
  pub welcome_text : Text
  pub tools : List ToolInfo
  pub initial_messages : List Message
  pub request_reminder : Option (W → Text)

abbrev pub user_message : Text → Message
user_message input = record { role = user; content = input; tool_call_id = []; tool_calls = [] }

-- An empty input adds no user message.
unfoldable pub append_input : List Message → Text → List Message
append_input messages [] = messages
append_input messages (c ∷ s) = messages ++ user_message (c ∷ s) ∷ []

abbrev pub is_user : Role → Bool
is_user user = true
is_user model = false
is_user tool = false

-- The index of the last user message; the Go loop runs backwards and stops at the first one.
unfoldable pub last_user : List Message → Option ℕ
last_user [] = none
last_user (m ∷ ms) = elim (last_user ms) [
  | some i ↦ some (suc i)
  | none ↦ elim (is_user m.role) [ true ↦ some 0 | false ↦ none ]
]

pub with_reminder : Text → Message → Message
with_reminder reminder m = record m { content = m.content ++ 10 ∷ 10 ∷ reminder }

-- The copy with the reminder at the tail message; the index was found in the list.
pub remind_at : Text → Option ℕ → List Message → List Message × Option ℕ
remind_at reminder none messages = (messages, none)
remind_at reminder (some i) messages = elim (get_elem? messages i) [
  | none ↦ (messages, none)
  | some m ↦ (set messages i (with_reminder reminder m), some i)
]

unfoldable pub remind : Text → List Message → List Message × Option ℕ
unfolding remind_at
remind [] messages = (messages, none)
remind (c ∷ reminder) messages = remind_at (c ∷ reminder) (last_user messages) messages

-- `applyReminder`; an index of -1 is `none`.
unfoldable pub apply_reminder :
    {W : Type 0} → List Message → Option (W → Text) → W → List Message × Option ℕ
apply_reminder messages none w = (messages, none)
apply_reminder messages (some reminder) w = remind (reminder w) messages

-- `stripReminder`; an index out of range changes nothing.
unfoldable pub strip_reminder : List Message → List Message → Option ℕ → List Message
strip_reminder updated original none = updated
strip_reminder updated original (some i) = elim (get_elem? original i) [
  | none ↦ updated
  | some m ↦ set updated i m
]

abbrev pub strip_result : {W : Type 0} → List Message → Option ℕ → LoopResult W → LoopResult W
strip_result original i none = none
strip_result original i (some (updated, end, w)) = some (strip_reminder updated original i, end, w)

module _ {W : Type 0} (cfg : Config W) where
  -- `RunTurn`
  pub run_turn : ℕ → List Message → Text → W → LoopResult W
  run_turn fuel messages input w =
      let all = append_input messages input in
      let (transient, i) = apply_reminder all cfg.request_reminder w in
      strip_result all i
        (run_agent_loop cfg.env cfg.generate cfg.system_prompt cfg.tools fuel transient w)

  -- `RunTurnStream`
  unfoldable pub run_turn_stream : (Text → W → W) → ℕ → List Message → Text → W → LoopResult W
  run_turn_stream on_chunk fuel messages input w =
      let all = append_input messages input in
      let (transient, i) = apply_reminder all cfg.request_reminder w in
      strip_result all i (
        run_agent_loop_stream cfg.env cfg.generate_stream on_chunk cfg.system_prompt cfg.tools fuel
          transient w)

  -- `RunInitialTurn` and `RunInitialTurnStream`
  pub run_initial_turn : ℕ → List Message → W → LoopResult W
  run_initial_turn fuel messages w =
      run_agent_loop cfg.env cfg.generate cfg.system_prompt cfg.tools fuel messages w

  pub run_initial_turn_stream : (Text → W → W) → ℕ → List Message → W → LoopResult W
  run_initial_turn_stream on_chunk fuel messages w =
      run_agent_loop_stream cfg.env cfg.generate_stream on_chunk cfg.system_prompt cfg.tools fuel
        messages w
