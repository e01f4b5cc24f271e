-- ===== src/Daemon/Sessions/Lifecycle.antt =====
-- pkg/daemon/sessions.go: how sessions are created, closed and reset.
use gonesis.Prelude.{Text, Option, none, some, [], Result, ok, err, ◌>>=◌}
use gonesis.Dict.{remove}
use gonesis.Todo.{new}
use gonesis.Daemon.Sessions.{
  ChatConfig, ManagedSession, SessionManager, Outside, SessionError, resolve_model, prepare_session,
  prepare_code_failed, session_not_found, get, store,
}

module _ {V P : Type 0} (out : Outside V P) where
  -- A new session, that starts with the initial messages of a config.
  unfoldable pub add_session :
      ChatConfig V
      → Option (ChatConfig V)
      → Text
      → SessionManager V P
      → V
      → (ManagedSession V × SessionManager V P) × V
  add_session start cfg welcome_text sm w =
      let (id, w1) = out.new_id w in
      let (created_at, w2) = out.now w1 in
      let sess : ManagedSession V = record {
        id = id;
        messages = start.initial_messages;
        todos = new;
        cfg = cfg;
        welcome_text = welcome_text;
        created_at = created_at;
      } in
      ((sess, store id sess sm), w2)

  -- `NewSessionManager`
  unfoldable pub new_session_manager : P → V → Result Text (SessionManager V P) × V
  new_session_manager p w =
      let (r, w') = out.prepare p w in
      (r >>= (λ cfg. ok (record { provider = p; chat_cfg = cfg; sessions = [] })), w')

  -- `Create`
  unfoldable pub create : SessionManager V P → V → (ManagedSession V × SessionManager V P) × V
  create sm w = add_session sm.chat_cfg none [] sm w

  abbrev pub Created : Type 0
  Created = (Result SessionError (ManagedSession V) × SessionManager V P) × V

  -- A session with a config of its own, or the error of its preparation.
  unfoldable pub add_prepared :
      (Text → SessionError) → SessionManager V P → Result Text (ChatConfig V) × V → Created
  add_prepared wrap sm (err e, w) = ((err (wrap e), sm), w)
  add_prepared wrap sm (ok cfg, w) =
      let ((sess, sm'), w') = add_session cfg (some cfg) cfg.welcome_text sm w in
      ((ok sess, sm'), w')

  -- `CreateCode`
  unfoldable pub create_code : Text → SessionManager V P → V → Created
  create_code work_dir sm w =
      add_prepared prepare_code_failed sm (out.prepare_code sm.provider work_dir w)

  -- What `CreateWithModel` and `CreateCodeWithModel` do with the provider of the model.
  unfoldable pub add_with_provider :
      Text
      → (Text → SessionError)
      → (P → V → Result Text (ChatConfig V) × V)
      → SessionManager V P
      → Result Text P × V
      → Created
  add_with_provider model wrap prepare sm (err e, w) = ((err (resolve_model model e), sm), w)
  add_with_provider model wrap prepare sm (ok p, w) = add_prepared wrap sm (prepare p w)

  -- `CreateWithModel`
  unfoldable pub create_with_model : Text → SessionManager V P → V → Created
  create_with_model model sm w =
      add_with_provider model (prepare_session model) out.prepare sm (out.get_provider model w)

  -- `CreateCodeWithModel`
  unfoldable pub create_code_with_model : Text → Text → SessionManager V P → V → Created
  create_code_with_model work_dir model sm w =
      add_with_provider model prepare_code_failed (λ p. out.prepare_code p work_dir) sm
        (out.get_provider model w)

  -- `Close`
  unfoldable pub close : Text → SessionManager V P → V → SessionManager V P × V
  close id sm w = elim (get id sm) [
    | none ↦ (sm, w)
    | some sess ↦
        (record sm { sessions = remove id sm.sessions }, out.finalize sm.provider sess.messages w)
  ]

  -- `Reset`
  unfoldable pub reset : Text → SessionManager V P → V → Created
  reset id sm w = elim (get id sm) [
    | none ↦ ((err (session_not_found id), sm), w)
    | some sess ↦
        let (closed, w1) = close id sm w in
        let ((fresh, sm'), w2) = create closed w1 in ((ok fresh, sm'), w2)
  ]
