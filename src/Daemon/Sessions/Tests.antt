-- ===== src/Daemon/Sessions/Tests.antt =====
-- A manager with one session, and the theorems at it.
use gonesis.Prelude.{
  ℕ, suc, Text, text_eq, codes, none, some, List, [], ◌∷◌, Result, ok, ◌≡◌, ◌≢◌, refl,
}
use mathlib.Core.Path.{subst}
use gonesis.Dict.{lookup, insert}
use gonesis.Provider.{Message, Response, model}
use gonesis.Provider.Batch.{IsFair}
use gonesis.Provider.Schedule.{down_from, down_from-Occurs}
use gonesis.Provider.Stream.{run_agent_loop_stream, response_of}
use gonesis.Session.{
  user_message, append_input, apply_reminder, remind, last_user, strip_reminder, run_turn_stream,
}
use gonesis.Todo.{new, render_system_reminder}
use gonesis.Daemon.Sessions.{
  ChatConfig, ManagedSession, SessionManager, Outside, Callbacks, get, finish_turn, with_extra,
  run_turn_internal,
}
use gonesis.Daemon.Sessions.Lifecycle.{add_session, create, reset, new_session_manager}
use gonesis.Daemon.Sessions.History.{create_call, turn_call, perform, perform_all}
use gonesis.Daemon.Sessions.Log.{IsSound}
use gonesis.Daemon.Sessions.Reachable.{PreparesFair, perform_all-IsSound}
use gonesis.Daemon.Sessions.Fresh.{reset_lem}

abbrev hi : Response
hi = record {
  message = record { role = model; content = codes "hi"; tool_call_id = []; tool_calls = [] };
  usage = record { input_tokens = 1; output_tokens = 1 };
}

-- The model says "hi", and no tool does anything.
abbrev cfg : ChatConfig ℕ
cfg = record {
  generate = λ params w. (ok hi, w);
  generate_stream = λ params w.
      ((record { content = codes "hi"; tool_calls = []; usage = hi.usage } ∷ [], none), w);
  env = record {
    execute = λ tc w. ((codes "out", none), w);
    schedule = λ n w. down_from n;
    on_tool_call = λ name args w. w;
  };
  system_prompt = [];
  welcome_text = codes "Agent ready.";
  tools = [];
  initial_messages = [];
  request_reminder = none;
}

cfg-IsFair : IsFair cfg.env
cfg-IsFair = record { covers = λ n w i h. down_from-Occurs n i h }

-- The world counts the ids that it gave out.
abbrev out : Outside ℕ ℕ
out = record {
  new_id = λ w. (w ∷ [], suc w);
  now = λ w. (w, w);
  get_provider = λ name w. (ok 0, w);
  prepare = λ p w. (ok cfg, w);
  prepare_code = λ p work_dir w. (ok cfg, w);
  finalize = λ p messages w. w;
}

out-PreparesFair : PreparesFair out
out-PreparesFair = record {
  prepares = λ p w c e. fair c e;
  prepares_code = λ p work_dir w c e. fair c e;
}
  where
    fair : (c : ChatConfig ℕ) → ◌≡◌ {A = Result Text (ChatConfig ℕ)} (ok cfg) (ok c) → IsFair c.env
    fair c e = let same : cfg ≡ c = cc in subst (λ d. IsFair d.env) same cfg-IsFair

abbrev session : List Message → ManagedSession ℕ
session messages = record {
  id = 7 ∷ [];
  messages = messages;
  todos = new;
  cfg = none;
  welcome_text = [];
  created_at = 8;
}

abbrev other : ManagedSession ℕ
other = record {
  id = 6 ∷ [];
  messages = [];
  todos = new;
  cfg = none;
  welcome_text = [];
  created_at = 7;
}

abbrev manager : List Message → SessionManager ℕ ℕ
manager messages = record {
  provider = 0;
  chat_cfg = cfg;
  sessions = (6 ∷ [], other) ∷ (7 ∷ [], session messages) ∷ [];
}

abbrev silent : Callbacks ℕ
silent = record { on_chunk = none; on_tool_call = none; on_inform = none; on_todo_snapshot = none }

abbrev talk : List Message
talk = user_message (codes "hey") ∷ hi.message ∷ []

started :
    (new_session_manager out 0 6).0 ≡ ok (record { provider = 0; chat_cfg = cfg; sessions = [] })
unfolding new_session_manager
started = refl

talked :
    perform_all out
      (create_call ∷ create_call ∷ turn_call 1 (7 ∷ []) (codes "hey") [] silent ∷ [])
      (record { provider = 0; chat_cfg = cfg; sessions = [] })
      6
    ≡ some (manager talk, 8)
unfolding perform_all perform create add_session insert text_eq run_turn_internal finish_turn lookup
    run_turn_stream append_input apply_reminder remind last_user strip_reminder
    run_agent_loop_stream response_of render_system_reminder with_extra
talked = refl

perform_all-IsSound_example : IsSound (manager talk)
perform_all-IsSound_example =
    perform_all-IsSound out out-PreparesFair
      (create_call ∷ create_call ∷ turn_call 1 (7 ∷ []) (codes "hey") [] silent ∷ []) 0 6 8 _
      (manager talk) started talked

found : get (7 ∷ []) (manager talk) ≡ some (session talk)
unfolding lookup text_eq
found = refl

reset_lem_example :
    let ((r, sm'), w') = reset out (7 ∷ []) (manager talk) 9 in
    (fresh : ManagedSession ℕ) × (r ≡ ok fresh)
    × (get fresh.id sm' ≡ some fresh)
    × (fresh.id ≡ 9 ∷ [])
    × (fresh.messages ≡ [])
    × (fresh.todos ≡ new)
    × ((7 ∷ []) ≢ fresh.id → get (7 ∷ []) sm' ≡ none)
    × ((j : Text) → j ≢ 7 ∷ [] → j ≢ fresh.id → get j sm' ≡ get j (manager talk))
reset_lem_example = reset_lem out (7 ∷ []) (session talk) (manager talk) 9 found
