-- ===== src/Memory/Tests.antt =====
-- A conversation of a question, a call and an answer.
use gonesis.Prelude.{codes, [], ◌∷◌, refl}
use gonesis.Strings.{trim_space, split}
use gonesis.Provider.{user, model, tool, Message, ToolCall}
use gonesis.Memory.{format_transcript}
use gonesis.Memory.Transcript.{Shows, format_transcript-user}

abbrev asks : Message
asks = record { role = user; content = codes "Which day?"; tool_call_id = []; tool_calls = [] }

abbrev call : ToolCall
call = record { args = []; id = codes "1"; name = codes "list_models"; thought_signature = [] }

abbrev calls : Message
calls = record { role = model; content = []; tool_call_id = []; tool_calls = call ∷ [] }

abbrev answers : Message
answers = record {
  role = tool;
  content = codes "gemini";
  tool_call_id = codes "1";
  tool_calls = [];
}

format_transcript-user_example :
    Shows
      (format_transcript trim_space (split 32) (calls ∷ answers ∷ asks ∷ calls ∷ []))
      (codes "**User:** Which day?")
format_transcript-user_example =
    format_transcript-user trim_space (split 32) (calls ∷ answers ∷ []) (calls ∷ []) asks refl
