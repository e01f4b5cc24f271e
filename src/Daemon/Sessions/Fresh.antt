-- ===== src/Daemon/Sessions/Fresh.antt =====
-- What closing and resetting a session leave.
use gonesis.Prelude.{Text, text_eq_ne, text_eq_refl, none, some, ok, ◌≡◌, ◌≢◌, refl, sym, ap, ◌∙◌}
use gonesis.Dict.{remove}
use gonesis.Dict.Laws.{lookup-insert, lookup-remove}
use gonesis.Todo.{new}
use gonesis.Daemon.Sessions.{ManagedSession, SessionManager, Outside, get, store}
use gonesis.Daemon.Sessions.Lifecycle.{add_session, create, close, reset}

module _ {V P : Type 0} where
  get-store_same :
      (id : Text) (sess : ManagedSession V) (sm : SessionManager V P)
      → get id (store id sess sm) ≡ some sess
  get-store_same id sess sm = lookup-insert id id sess sm.sessions ∙ rw (text_eq_refl id) refl

  get-store_other :
      (id j : Text) (sess : ManagedSession V) (sm : SessionManager V P)
      → j ≢ id
      → get j (store id sess sm) ≡ get j sm
  get-store_other id j sess sm other =
      lookup-insert id j sess sm.sessions ∙ rw (text_eq_ne id j (λ e. other (sym e))) refl

module _ {V P : Type 0} (out : Outside V P) where
  close_found :
      (id : Text) (sess : ManagedSession V) (sm : SessionManager V P) (w : V)
      → get id sm ≡ some sess
      → close out id sm w
        ≡ (record sm { sessions = remove id sm.sessions }, out.finalize sm.provider sess.messages w)
  unfolding close
  close_found id sess sm w h = rw (h, close) refl

  -- `Close` removes the session, gives the memory its messages, and leaves every other session.
  pub close_lem :
      (id : Text) (sess : ManagedSession V) (sm : SessionManager V P) (w : V)
      → get id sm ≡ some sess
      → let (sm', w') = close out id sm w in
        (w' ≡ out.finalize sm.provider sess.messages w)
        × (get id sm' ≡ none)
        × ((j : Text) → j ≢ id → get j sm' ≡ get j sm)
  unfolding close
  close_lem id sess sm w h =
      rw (h, close)
        (
          refl,
          lookup-remove id id sm.sessions ∙ rw (text_eq_refl id) refl,
          λ j other.
              lookup-remove id j sm.sessions ∙ rw (text_eq_ne id j (λ e. other (sym e))) refl,
        )

  -- `Create` adds a session with a new id, the initial messages and no todos; every session with
  -- another id is as it was.
  pub create_lem :
      (sm : SessionManager V P) (w : V)
      → let ((fresh, sm'), w') = create out sm w in
        (get fresh.id sm' ≡ some fresh)
        × (fresh.id ≡ (out.new_id w).0)
        × (fresh.messages ≡ sm.chat_cfg.initial_messages)
        × (fresh.todos ≡ new)
        × ((j : Text) → j ≢ fresh.id → get j sm' ≡ get j sm)
  unfolding create add_session
  create_lem sm w =
      (get-store_same _ _ sm, refl, refl, refl, λ j other. get-store_other _ j _ sm other)

  -- `Reset` of a session gives its messages to the memory and puts a fresh session in its place: one
  -- with a new id, the initial messages and no todos. The old id is gone, if the new one differs,
  -- and every other session is as it was.
  pub reset_lem :
      (id : Text) (sess : ManagedSession V) (sm : SessionManager V P) (w : V)
      → get id sm ≡ some sess
      → let ((r, sm'), w') = reset out id sm w in
        (fresh : ManagedSession V) × (r ≡ ok fresh)
        × (get fresh.id sm' ≡ some fresh)
        × (fresh.id ≡ (out.new_id (out.finalize sm.provider sess.messages w)).0)
        × (fresh.messages ≡ sm.chat_cfg.initial_messages)
        × (fresh.todos ≡ new)
        × (id ≢ fresh.id → get id sm' ≡ none)
        × ((j : Text) → j ≢ id → j ≢ fresh.id → get j sm' ≡ get j sm)
  unfolding reset
  reset_lem id sess sm w h =
      let closed = close_found id sess sm w h in
      let (found, new_id, initial, no_todos, others) =
        create_lem (close out id sm w).0 (close out id sm w).1 in
      let (finalized, gone, kept) = close_lem id sess sm w h in
      rw (h, reset)
        (
          _,
          refl,
          found,
          new_id ∙ ap (λ v. (out.new_id v).0) finalized,
          initial ∙ ap (λ p. p.0.chat_cfg.initial_messages) closed,
          no_todos,
          λ other. others id other ∙ gone,
          λ j other fresh. others j fresh ∙ kept j other,
        )
