-- ===== src/Provider/Tests.antt =====
-- A scripted model, and the theorems at its runs.
use gonesis.Prelude.{
  ℕ, zero, suc, ◌+◌, ◌<◌, Text, codes, none, some, List, [], ◌∷◌, ◌++◌, Result, ok, err, ◌≡◌, ◌≢◌,
  refl, sym, ap, arith, map,
}
use gonesis.Provider.{
  ToolCall, Message, Usage, Response, GenerateParams, Env, user, model, tool, execute_one,
  execute_in_order, execute_tools_parallel, reply_of, is_done,
}
use gonesis.Provider.Batch.{IsFair, execute_tools_parallel_lem}
use gonesis.Provider.Loop.{LoopEnd, Generate, answered, run_agent_loop}
use gonesis.Provider.Transcript.{Rounds, run_agent_loop-Rounds}
use gonesis.Provider.Stream.{
  GenerateStream, run_agent_loop_stream, gathering, run_agent_loop_stream-eq,
}
use gonesis.Provider.Schedule.{down_from, down_from-Occurs}
use gonesis.Provider.Termination.{Tires, run_agent_loop-ends}

abbrev no_usage : Usage
no_usage = record { input_tokens = 0; output_tokens = 0 }

abbrev call : Text → ToolCall
call n = record { args = []; id = n; name = codes "bash"; thought_signature = [] }

-- The model asks for two tools while the world counts down, and then answers.
abbrev script : Generate ℕ
script params zero = (
  ok (record {
    message = record { role = model; content = codes "hi"; tool_call_id = []; tool_calls = [] };
    usage = no_usage;
  }),
  zero,
)
script params (suc w) = (
  ok (record {
    message = record {
      role = model;
      content = [];
      tool_call_id = [];
      tool_calls = call (codes "a") ∷ call (codes "b") ∷ [];
    };
    usage = no_usage;
  }),
  w,
)

abbrev echo : Env ℕ
echo = record {
  execute = λ tc w. ((codes "out", none), w);
  schedule = λ n w. down_from n;
  on_tool_call = λ name args w. w;
}

echo-IsFair : IsFair echo
echo-IsFair = record { covers = λ n w i h. down_from-Occurs n i h }

execute_tools_parallel_lem_example :
    (execute_tools_parallel echo (call (codes "a") ∷ call (codes "b") ∷ []) 0).0.0
    ≡ map (λ tc. reply_of tc (codes "out", none)) (call (codes "a") ∷ call (codes "b") ∷ [])
execute_tools_parallel_lem_example =
    execute_tools_parallel_lem echo echo-IsFair (λ tc. (codes "out", none)) (λ tc w. refl)
      (call (codes "a") ∷ call (codes "b") ∷ []) 0

abbrev hello : List Message
hello = record { role = user; content = codes "hey"; tool_call_id = []; tool_calls = [] } ∷ []

-- One round of tools, and then the answer.
abbrev final : List Message
final =
    hello
    ++ (record {
      role = model;
      content = [];
      tool_call_id = [];
      tool_calls = call (codes "a") ∷ call (codes "b") ∷ [];
    }
        ∷ record { role = tool; content = codes "out"; tool_call_id = codes "a"; tool_calls = [] }
        ∷ record { role = tool; content = codes "out"; tool_call_id = codes "b"; tool_calls = [] }
        ∷ record { role = model; content = codes "hi"; tool_call_id = []; tool_calls = [] }
        ∷ [])

abbrev final_end : LoopEnd
final_end = answered (record {
  message = record { role = model; content = codes "hi"; tool_call_id = []; tool_calls = [] };
  usage = no_usage;
})

script_run : run_agent_loop echo script [] [] 2 hello 1 ≡ some (final, final_end, 0)
unfolding run_agent_loop execute_tools_parallel execute_in_order execute_one reply_of is_done
script_run = refl

run_agent_loop-Rounds_example : (new : List Message) × (final ≡ hello ++ new) × Rounds new final_end
run_agent_loop-Rounds_example =
    run_agent_loop-Rounds echo echo-IsFair script [] [] 2 hello final final_end 1 0 script_run

abbrev calls_of : Result Text Response → List ToolCall
calls_of (err e) = []
calls_of (ok resp) = resp.message.tool_calls

script_falls :
    (params : GenerateParams) (w w' : ℕ) (resp : Response)
    → script params w ≡ (ok resp, w')
    → resp.message.tool_calls ≢ []
    → (execute_tools_parallel echo resp.message.tool_calls w').1 < w
unfolding execute_tools_parallel execute_in_order execute_one
script_falls params zero w' resp e h =
    absurd (h (sym (ap (λ (p : Result Text Response × ℕ). calls_of p.0) e)))
script_falls params (suc w) w' resp e h =
    let left : w ≡ (execute_tools_parallel echo resp.message.tool_calls w').1 =
      ap (λ (p : Result Text Response × ℕ). (execute_tools_parallel echo (calls_of p.0) p.1).1) e in
    omega arith

script-Tires : Tires echo script [] [] (λ w. w)
script-Tires = record { falls = λ params w w' resp e h going_on. script_falls params w w' resp e h }

run_agent_loop-ends_example :
    (r : List Message × LoopEnd × ℕ) × (run_agent_loop echo script [] [] 8 hello 7 ≡ some r)
run_agent_loop-ends_example =
    run_agent_loop-ends echo script [] [] (λ w. w) script-Tires 8 hello 7 (omega arith)

abbrev pieces : GenerateStream ℕ
pieces params w = (
  (
    record { content = codes "he"; tool_calls = []; usage = no_usage }
        ∷ record { content = codes "llo"; tool_calls = []; usage = no_usage }
        ∷ [],
    none,
  ),
  w,
)

run_agent_loop_stream-eq_example :
    run_agent_loop_stream echo pieces (λ s w. w + 1) [] [] 1 hello 0
    ≡ run_agent_loop echo (gathering echo pieces (λ s w. w + 1) [] []) [] [] 1 hello 0
run_agent_loop_stream-eq_example =
    run_agent_loop_stream-eq echo pieces (λ s w. w + 1) [] [] 1 hello 0
