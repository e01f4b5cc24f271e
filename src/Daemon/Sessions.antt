-- ===== src/Daemon/Sessions.antt =====
-- pkg/daemon/sessions.go: the session manager. Its calls are taken one after the other, as its
-- mutexes make them: a turn holds the lock of its session from its start to its end. So the cancel
-- function of a session is nil between two calls, and is not a field here.
pub mod Lifecycle
pub mod Entry
pub mod Turns
pub mod History
pub mod Log
pub mod Reachable
pub mod Fresh
mod Tests
use gonesis.Prelude.{
  ℕ, Text, codes, text_eq, Bool, ◌||◌, Option, none, some, List, [], ◌∷◌, ◌++◌, if◌then◌else◌,
  Result, ok, err,
}
use gonesis.Dict.{Dict, lookup, insert}
use gonesis.Provider.{Bytes, ToolCall, Message, ExecError}
use gonesis.Provider.Loop.{LoopEnd, answered, provider_failed, tool_done}
use gonesis.Session.{Config, run_turn_stream}
use gonesis.Todo.{Item, TodoList, snapshot, render_system_reminder}

-- What a turn acts on: what its context carries, which is the todo list of the session and the
-- inform function, and all that is outside the manager.
pub record TurnWorld (V : Type 0) : Type 0 where
  pub todos : TodoList
  pub inform : Text → V → V
  pub outside : V

abbrev pub ChatConfig : Type 0 → Type 0
ChatConfig V = Config (TurnWorld V)

pub record ManagedSession (V : Type 0) : Type 0 where
  pub id : Text
  pub messages : List Message
  pub todos : TodoList
  pub cfg : Option (ChatConfig V)
  pub welcome_text : Text
  pub created_at : ℕ

-- `agentCfg` is kept as its provider, the one field of it that the manager ever replaces.
pub record SessionManager (V P : Type 0) : Type 0 where
  pub provider : P
  pub chat_cfg : ChatConfig V
  pub sessions : Dict (ManagedSession V)

-- What the manager calls: uuid.New, time.Now, the container, and the agent's `Prepare`,
-- `PrepareCode` and `Finalize`, whose error the manager drops.
pub record Outside (V P : Type 0) : Type 0 where
  pub new_id : V → Text × V
  pub now : V → ℕ × V
  pub get_provider : Text → V → Result Text P × V
  pub prepare : P → V → Result Text (ChatConfig V) × V
  pub prepare_code : P → Text → V → Result Text (ChatConfig V) × V
  pub finalize : P → List Message → V → V

-- The errors, with the arguments of their messages.
pub data SessionError : Type 0 where
  resolve_model : Text → Text → SessionError
  prepare_session : Text → Text → SessionError
  prepare_code_failed : Text → SessionError
  session_not_found : Text → SessionError
  turn_failed : Text → SessionError
  turn_done : SessionError

-- The callbacks of a turn; a nil callback is `none`.
pub record Callbacks (V : Type 0) : Type 0 where
  pub on_chunk : Option (Text → V → V)
  pub on_tool_call : Option (Text → Bytes → V → V)
  pub on_inform : Option (Text → V → V)
  pub on_todo_snapshot : Option (List Item → V → V)

pub is_todo_tool : Text → Bool
is_todo_tool name = text_eq name (codes "todo_create") || text_eq name (codes "todo_update")

-- The prompt with the content of a skill, if there is one.
pub with_extra : Text → Text → Text
with_extra prompt [] = prompt
with_extra prompt (c ∷ s) = prompt ++ 10 ∷ 10 ∷ c ∷ s

-- The messages and the result of a turn that ended. ErrDone is an error too: only an answered turn
-- replaces the messages.
abbrev pub kept_messages : List Message → List Message → LoopEnd → List Message
kept_messages old updated (answered resp) = updated
kept_messages old updated (provider_failed e) = old
kept_messages old updated (tool_done resp) = old

abbrev pub turn_reply : LoopEnd → Result SessionError Text
turn_reply (answered resp) = ok resp.message.content
turn_reply (provider_failed e) = err (turn_failed e)
turn_reply (tool_done resp) = err turn_done

abbrev pub TurnResult : Type 0 → Type 0 → Type 0
TurnResult V P = Option (Result SessionError Text × SessionManager V P × V)

module _ {V : Type 0} where
  -- The config of a session: its own, or else the shared one.
  abbrev pub base_config : ChatConfig V → Option (ChatConfig V) → ChatConfig V
  base_config chat_cfg none = chat_cfg
  base_config chat_cfg (some cfg) = cfg

  abbrev pub act : (V → V) → TurnWorld V → TurnWorld V
  act f w = record w { outside = f w.outside }

  abbrev pub or_nothing {ℓ} : {A : Type ℓ} → Option (A → V → V) → A → V → V
  or_nothing none a w = w
  or_nothing (some f) a w = f a w

  -- The callback for tool calls replaces the one of the config, unless it is nil.
  abbrev pub told_by :
      Option (Text → Bytes → V → V)
      → (Text → Bytes → TurnWorld V → TurnWorld V)
      → Text
      → Bytes
      → TurnWorld V
      → TurnWorld V
  told_by none of_config name args w = of_config name args w
  told_by (some f) of_config name args w = act (f name args) w

  -- The executor, and behind the todo tools the snapshot callback.
  pub watched :
      Option (List Item → V → V)
      → (ToolCall → TurnWorld V → (Text × Option ExecError) × TurnWorld V)
      → ToolCall
      → TurnWorld V
      → (Text × Option ExecError) × TurnWorld V
  watched none inner tc w = inner tc w
  watched (some f) inner tc w =
      let (r, w') = inner tc w in
      (r, if is_todo_tool tc.name then act (f (snapshot w'.todos)) w' else w')

  -- The config that one turn runs with.
  abbrev pub turn_config : ChatConfig V → Text → Callbacks V → ChatConfig V
  turn_config cfg extra cb = record cfg {
    system_prompt = with_extra cfg.system_prompt extra;
    env = record {
      execute = watched cb.on_todo_snapshot cfg.env.execute;
      schedule = cfg.env.schedule;
      on_tool_call = told_by cb.on_tool_call cfg.env.on_tool_call;
    };
    request_reminder = some (λ w. render_system_reminder w.todos);
  }

module _ {V P : Type 0} where
  -- `Get`
  abbrev pub get : Text → SessionManager V P → Option (ManagedSession V)
  get id sm = lookup id sm.sessions

  -- `WelcomeText`
  abbrev pub shared_welcome_text : SessionManager V P → Text
  shared_welcome_text sm = sm.chat_cfg.welcome_text

  abbrev pub store : Text → ManagedSession V → SessionManager V P → SessionManager V P
  store id sess sm = record sm { sessions = insert id sess sm.sessions }

  -- The tools have changed the todo list of the session however the turn ended.
  pub finish_turn :
      Text
      → ManagedSession V
      → SessionManager V P
      → Option (List Message × LoopEnd × TurnWorld V)
      → TurnResult V P
  finish_turn id sess sm none = none
  finish_turn id sess sm (some (updated, end, w)) = some (
    turn_reply end,
    store id (record sess { messages = kept_messages sess.messages updated end; todos = w.todos })
        sm,
    w.outside,
  )

  -- `runTurnInternal`
  pub run_turn_internal :
      ℕ → Text → Text → Text → Callbacks V → SessionManager V P → V → TurnResult V P
  unfolding finish_turn
  run_turn_internal fuel id input extra cb sm w = elim (get id sm) [
    | none ↦ some (err (session_not_found id), sm, w)
    | some sess ↦ finish_turn id sess sm (
        run_turn_stream (turn_config (base_config sm.chat_cfg sess.cfg) extra cb)
          (λ chunk. act (or_nothing cb.on_chunk chunk)) fuel sess.messages input
          (record { todos = sess.todos; inform = or_nothing cb.on_inform; outside = w }))
  ]
