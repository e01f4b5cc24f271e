-- ===== src/Session/Turn.antt =====
-- What a turn does to the log of a conversation.
use gonesis.Prelude.{ℕ, Text, Option, none, some, List, ◌++◌, ◌≡◌, ap, sym, ◌∙◌}
use mathlib.Core.Path.{subst}
use gonesis.Provider.{Message}
use gonesis.Provider.Batch.{IsFair}
use gonesis.Provider.Loop.{LoopEnd, LoopResult}
use gonesis.Provider.Transcript.{Rounds, Good, run_agent_loop-Good}
use gonesis.Provider.Stream.{gathering, run_agent_loop_stream-eq}
use gonesis.Session.{
  Config, append_input, apply_reminder, strip_reminder, strip_result, run_turn, run_turn_stream,
}
use gonesis.Session.Reminder.{strip-apply_reminder}

-- The log behind a turn: the old log, the input, and the rounds of the loop.
abbrev pub TurnLog : List Message → Text → List Message → LoopEnd → Type 0
TurnLog messages input out end =
    (new : List Message) × (out ≡ append_input messages input ++ new) × Rounds new end

abbrev GoodTurn : {W : Type 0} → List Message → Text → LoopResult W → Type 0
GoodTurn messages input none = Unit
GoodTurn messages input (some (out, end, w)) = TurnLog messages input out end

strip_result-GoodTurn :
    {W : Type 0} (messages : List Message) (input : Text) (reminder : Option (W → Text)) (w : W)
    (r : LoopResult W)
    → let all = append_input messages input in
      let (transient, i) = apply_reminder all reminder w in
      Good transient r → GoodTurn messages input (strip_result all i r)
strip_result-GoodTurn messages input reminder w none g = tt
strip_result-GoodTurn messages input reminder w (some (out, end, w')) (new, e, rs) =
    let all = append_input messages input in
    let (transient, i) = apply_reminder all reminder w in
    (new, ap (λ l. strip_reminder l all i) e ∙ strip-apply_reminder all new reminder w, rs)

module _ {W : Type 0} (cfg : Config W) (fair : IsFair cfg.env) where
  -- A turn that ends, in whichever way, leaves the old log as it was and appends to it the input, if
  -- there is one, and whole rounds. So the reminder, which the model has seen behind the last user
  -- message, is not in the log.
  pub run_turn-TurnLog :
      (fuel : ℕ) (messages : List Message) (input : Text) (w w' : W) (out : List Message)
      (end : LoopEnd)
      → run_turn cfg fuel messages input w ≡ some (out, end, w')
      → TurnLog messages input out end
  unfolding run_turn
  run_turn-TurnLog fuel messages input w w' out end e = subst (GoodTurn messages input) e (
      strip_result-GoodTurn messages input cfg.request_reminder w _
        (run_agent_loop-Good cfg.env fair cfg.generate cfg.system_prompt cfg.tools fuel _ w))

  -- A turn with streamed replies that ends leaves the old log as it was and appends to it the input,
  -- if there is one, and whole rounds; the reminder is not in the log.
  pub run_turn_stream-TurnLog :
      (on_chunk : Text → W → W) (fuel : ℕ) (messages : List Message) (input : Text) (w w' : W)
      (out : List Message) (end : LoopEnd)
      → run_turn_stream cfg on_chunk fuel messages input w ≡ some (out, end, w')
      → TurnLog messages input out end
  unfolding run_turn_stream
  run_turn_stream-TurnLog on_chunk fuel messages input w w' out end e =
      let all = append_input messages input in
      let (transient, i) = apply_reminder all cfg.request_reminder w in
      let generate = gathering cfg.env cfg.generate_stream on_chunk cfg.system_prompt cfg.tools in
      subst (GoodTurn messages input) e (
        strip_result-GoodTurn messages input cfg.request_reminder w _ (
          subst (Good transient)
            (sym (
              run_agent_loop_stream-eq cfg.env cfg.generate_stream on_chunk cfg.system_prompt
                cfg.tools fuel transient w))
            (run_agent_loop-Good cfg.env fair generate cfg.system_prompt cfg.tools fuel transient
              w)))
