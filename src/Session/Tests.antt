-- ===== src/Session/Tests.antt =====
-- A turn with a reminder, and the theorems at it.
use gonesis.Prelude.{ℕ, codes, none, some, [], ◌∷◌, ok, ◌≡◌, refl}
use gonesis.Provider.Schedule.{down_from, down_from-Occurs}
use gonesis.Provider.{Response, model}
use gonesis.Provider.Batch.{IsFair}
use gonesis.Provider.Loop.{answered}
use gonesis.Provider.Stream.{run_agent_loop_stream, response_of}
use gonesis.Session.{
  Config, user_message, append_input, apply_reminder, remind, last_user, with_reminder,
  strip_reminder, run_turn_stream,
}
use gonesis.Session.Turn.{TurnLog, run_turn_stream-TurnLog}

abbrev hi : Response
hi = record {
  message = record { role = model; content = codes "hi"; tool_call_id = []; tool_calls = [] };
  usage = record { input_tokens = 1; output_tokens = 1 };
}

-- The model says "hi", and a reminder "todo" is set.
abbrev cfg : Config ℕ
cfg = record {
  generate = λ params w. (ok hi, w);
  generate_stream = λ params w.
      ((record { content = codes "hi"; tool_calls = []; usage = hi.usage } ∷ [], none), w);
  env = record {
    execute = λ tc w. ((codes "out", none), w);
    schedule = λ n w. down_from n;
    on_tool_call = λ name args w. w;
  };
  system_prompt = [];
  welcome_text = [];
  tools = [];
  initial_messages = [];
  request_reminder = some (λ w. codes "todo");
}

cfg-IsFair : IsFair cfg.env
cfg-IsFair = record { covers = λ n w i h. down_from-Occurs n i h }

reminded :
    (apply_reminder (user_message (codes "a") ∷ hi.message ∷ []) cfg.request_reminder 0).0
    ≡ user_message (codes "a\n\ntodo") ∷ hi.message ∷ []
unfolding apply_reminder remind last_user with_reminder
reminded = refl

stream_run :
    run_turn_stream cfg (λ s w. w) 1 (hi.message ∷ []) (codes "hey") 0
    ≡ some (hi.message ∷ user_message (codes "hey") ∷ hi.message ∷ [], answered hi, 0)
unfolding run_turn_stream append_input apply_reminder remind last_user with_reminder strip_reminder
    run_agent_loop_stream response_of
stream_run = refl

run_turn_stream-TurnLog_example :
    TurnLog
      (hi.message ∷ [])
      (codes "hey")
      (hi.message ∷ user_message (codes "hey") ∷ hi.message ∷ [])
      (answered hi)
run_turn_stream-TurnLog_example =
    run_turn_stream-TurnLog cfg cfg-IsFair (λ s w. w) 1 (hi.message ∷ []) (codes "hey") 0 0
      (hi.message ∷ user_message (codes "hey") ∷ hi.message ∷ []) (answered hi) stream_run
