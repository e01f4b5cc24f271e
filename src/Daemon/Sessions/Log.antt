-- ===== src/Daemon/Sessions/Log.antt =====
-- What holds of every session, and that each call keeps it.
use gonesis.Prelude.{
  ℕ, Text, Option, none, some, List, [], Result, ok, err, ◌≡◌, inl, inr, refl, sym, ap, ◌∙◌,
  Option-cases,
}
use gonesis.Dict.{HasDistinctKeys}
use gonesis.Dict.Laws.{
  lookup-insert_cases, lookup-remove_kept, insert-HasDistinctKeys, remove-HasDistinctKeys,
}
use gonesis.Provider.{Message, Response}
use gonesis.Provider.Batch.{IsFair}
use gonesis.Provider.Loop.{answered}
use gonesis.Session.Turn.{TurnLog}
use gonesis.Daemon.Sessions.{
  ChatConfig, ManagedSession, SessionManager, Outside, SessionError, get, store, base_config,
  run_turn_internal, Callbacks,
}
use gonesis.Daemon.Sessions.Lifecycle.{
  add_session, add_prepared, add_with_provider, create, close, reset,
}
use gonesis.Daemon.Sessions.Turns.{AllFair, Logged, run_turn_internal_lem}

-- A log is the initial messages of its config and behind them turns that were answered.
pub data IsLog : List Message → List Message → Type 0 where
  start : {initial log : List Message} → log ≡ initial → IsLog initial log
  turn :
      {initial log : List Message} (before : List Message) (input : Text) (resp : Response)
      → IsLog initial before
      → TurnLog before input log (answered resp)
      → IsLog initial log

Logged-IsLog :
    (initial before behind : List Message) (input : Text) (r : Result SessionError Text)
    → IsLog initial before
    → Logged before input behind r
    → IsLog initial behind
Logged-IsLog initial before behind input r l (inl (e, end, failed, ended, same)) = rw same l
Logged-IsLog initial before behind input r l (inr (resp, e, log)) = turn before input resp l log

pub record SessionIsSound {V : Type 0} (chat_cfg : ChatConfig V) (id : Text)
    (sess : ManagedSession V) : Type 0 where
  pub own_id : sess.id ≡ id
  pub is_log : IsLog (base_config chat_cfg sess.cfg).initial_messages sess.messages
  pub own_fair : (cfg : ChatConfig V) → sess.cfg ≡ some cfg → IsFair cfg.env

module _ {V P : Type 0} where
  -- Every session stands under its own id, and its messages are a log.
  pub record IsSound (sm : SessionManager V P) : Type 0 where
    pub distinct : HasDistinctKeys sm.sessions
    pub shared_fair : IsFair sm.chat_cfg.env
    pub sound :
        (id : Text) (sess : ManagedSession V)
        → get id sm ≡ some sess
        → SessionIsSound sm.chat_cfg id sess

  pub IsSound-AllFair : (sm : SessionManager V P) → IsSound sm → AllFair sm
  IsSound-AllFair sm s = record {
    shared_fair = s.shared_fair;
    own_fair = λ id sess cfg h. (s.sound id sess h).own_fair cfg;
  }

  store-IsSound :
      (id : Text) (sess : ManagedSession V) (sm : SessionManager V P)
      → IsSound sm
      → SessionIsSound sm.chat_cfg id sess
      → IsSound (store id sess sm)
  store-IsSound id sess sm s new_sound = record {
    distinct = insert-HasDistinctKeys id sess sm.sessions s.distinct;
    shared_fair = s.shared_fair;
    sound = λ j x h. elim (lookup-insert_cases id j sess x sm.sessions h) [
      | inl (same, new) ↦ rw (same, new) new_sound
      | inr old ↦ s.sound j x old
    ];
  }

  pub add_session-IsSound :
      (out : Outside V P) (initial : ChatConfig V) (cfg : Option (ChatConfig V))
      (welcome_text : Text) (sm : SessionManager V P) (w : V)
      → IsSound sm
      → base_config sm.chat_cfg cfg ≡ initial
      → ((c : ChatConfig V) → cfg ≡ some c → IsFair c.env)
      → IsSound (add_session out initial cfg welcome_text sm w).0.1
  unfolding add_session
  add_session-IsSound out initial cfg welcome_text sm w s e fair = store-IsSound _ _ sm s (record {
    own_id = refl;
    is_log = start (ap (λ c. c.initial_messages) (sym e));
    own_fair = fair;
  })

  pub add_prepared-IsSound :
      (out : Outside V P) (wrap : Text → SessionError) (sm : SessionManager V P)
      (r : Result Text (ChatConfig V) × V)
      → IsSound sm
      → ((cfg : ChatConfig V) → r.0 ≡ ok cfg → IsFair cfg.env)
      → IsSound (add_prepared out wrap sm r).0.1
  unfolding add_prepared
  add_prepared-IsSound out wrap sm (err e, w) s fair = s
  add_prepared-IsSound out wrap sm (ok cfg, w) s fair =
      add_session-IsSound out cfg (some cfg) cfg.welcome_text sm w s refl (λ c e. fair c (cc))

  pub add_with_provider-IsSound :
      (out : Outside V P) (model : Text) (wrap : Text → SessionError)
      (prepare : P → V → Result Text (ChatConfig V) × V) (sm : SessionManager V P)
      (r : Result Text P × V)
      → IsSound sm
      → ((p : P) (w : V) (cfg : ChatConfig V) → (prepare p w).0 ≡ ok cfg → IsFair cfg.env)
      → IsSound (add_with_provider out model wrap prepare sm r).0.1
  unfolding add_with_provider
  add_with_provider-IsSound out model wrap prepare sm (err e, w) s fair = s
  add_with_provider-IsSound out model wrap prepare sm (ok p, w) s fair =
      add_prepared-IsSound out wrap sm (prepare p w) s (fair p w)

  pub close-IsSound :
      (out : Outside V P) (id : Text) (sm : SessionManager V P) (w : V)
      → IsSound sm
      → IsSound (close out id sm w).0
  unfolding close
  close-IsSound out id sm w s = elim (Option-cases (get id sm)) [
    | inl none_found ↦ rw (none_found, close) s
    | inr (sess, h) ↦
        rw (h, close)
          (record {
            distinct = remove-HasDistinctKeys id sm.sessions s.distinct;
            shared_fair = s.shared_fair;
            sound = λ j x e. s.sound j x (lookup-remove_kept id j x sm.sessions e);
          })
  ]

  pub reset-IsSound :
      (out : Outside V P) (id : Text) (sm : SessionManager V P) (w : V)
      → IsSound sm
      → IsSound (reset out id sm w).0.1
  unfolding reset create
  reset-IsSound out id sm w s = elim (Option-cases (get id sm)) [
    | inl none_found ↦ rw (none_found, reset) s
    | inr (sess, h) ↦
        let (closed, w1) = close out id sm w in
        rw (h, reset)
          (add_session-IsSound out closed.chat_cfg none [] closed w1 (close-IsSound out id sm w s)
            refl (λ c e. absurd cc))
  ]

  pub turn-IsSound :
      (fuel : ℕ) (id input extra : Text) (cb : Callbacks V) (sm sm' : SessionManager V P) (w w' : V)
      (r : Result SessionError Text)
      → IsSound sm
      → run_turn_internal fuel id input extra cb sm w ≡ some (r, sm', w')
      → IsSound sm'
  turn-IsSound fuel id input extra cb sm sm' w w' r s e =
      elim (run_turn_internal_lem fuel id input extra cb sm sm' w w' r (IsSound-AllFair sm s) e) [
        | inl (out, r_err, same) ↦ rw same s
        | inr (sess, sess', h, same, kept, logged) ↦
            let old = s.sound id sess h in
            rw same (
              store-IsSound id sess' sm s (record {
                own_id = kept.same_id ∙ old.own_id;
                is_log =
                    rw kept.same_cfg
                      (Logged-IsLog _ sess.messages sess'.messages input r old.is_log logged);
                own_fair = λ cfg c. old.own_fair cfg (sym kept.same_cfg ∙ c);
              }))
      ]
