-- ===== src/Daemon/Sessions/History.antt =====
-- Sequences of calls of the session manager.
use gonesis.Prelude.{ℕ, Text, Option, none, some, List, [], ◌∷◌, Result}
use gonesis.Daemon.Sessions.{
  ManagedSession, SessionManager, Outside, SessionError, Callbacks, TurnResult, run_turn_internal,
}
use gonesis.Daemon.Sessions.Lifecycle.{
  create, create_code, create_with_model, create_code_with_model, close, reset,
}

-- The calls that change the manager. `RunTurnStream`, `RunSkillTurnStream` and their raw forms are
-- turns with or without a skill's content and some of the callbacks.
pub data Call (V : Type 0) : Type 0 where
  create_call : Call V
  create_code_call : Text → Call V
  create_with_model_call : Text → Call V
  create_code_with_model_call : Text → Text → Call V
  close_call reset_call : Text → Call V
  turn_call : ℕ → Text → Text → Text → Callbacks V → Call V

module _ {V P : Type 0} where
  -- What a call leaves, its result forgotten; `none` is a turn that ran out of fuel.
  abbrev pub after_turn : TurnResult V P → Option (SessionManager V P × V)
  after_turn none = none
  after_turn (some (r, sm, w)) = some (sm, w)

  abbrev pub after_created :
      (Result SessionError (ManagedSession V) × SessionManager V P) × V → SessionManager V P × V
  after_created ((r, sm), w) = (sm, w)

  unfoldable pub perform :
      Outside V P → Call V → SessionManager V P → V → Option (SessionManager V P × V)
  perform out create_call sm w = let ((sess, sm'), w') = create out sm w in some (sm', w')
  perform out (create_code_call work_dir) sm w =
      some (after_created (create_code out work_dir sm w))
  perform out (create_with_model_call model) sm w =
      some (after_created (create_with_model out model sm w))
  perform out (create_code_with_model_call work_dir model) sm w =
      some (after_created (create_code_with_model out work_dir model sm w))
  perform out (close_call id) sm w = some (close out id sm w)
  perform out (reset_call id) sm w = some (after_created (reset out id sm w))
  perform out (turn_call fuel id input extra cb) sm w =
      after_turn (run_turn_internal fuel id input extra cb sm w)

  -- The calls in their order.
  unfoldable pub perform_all :
      Outside V P → List (Call V) → SessionManager V P → V → Option (SessionManager V P × V)
  perform_all out [] sm w = some (sm, w)
  perform_all out (c ∷ calls) sm w = elim (perform out c sm w) [
    | none ↦ none
    | some (sm', w') ↦ perform_all out calls sm' w'
  ]
