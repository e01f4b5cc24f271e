-- ===== src/Daemon/Sessions/Reachable.antt =====
-- What holds of every session after any sequence of calls.
use gonesis.Prelude.{
  Text, Option, none, some, List, [], ◌∷◌, Result, ok, err, ◌≡◌, inl, inr, refl, Option-cases,
  Result-cases, ◌≢◌,
}
use mathlib.Core.Path.{subst}
use gonesis.Dict.{lookup}
use gonesis.Provider.Batch.{IsFair}
use gonesis.Daemon.Sessions.{
  ChatConfig, SessionManager, Outside, SessionError, TurnResult, run_turn_internal,
}
use gonesis.Daemon.Sessions.Lifecycle.{
  create, create_code, create_with_model, create_code_with_model, new_session_manager,
}
use gonesis.Daemon.Sessions.History.{
  Call, create_call, create_code_call, create_with_model_call, create_code_with_model_call,
  close_call, reset_call, turn_call, after_turn, perform, perform_all,
}
use gonesis.Daemon.Sessions.Log.{
  IsSound, add_session-IsSound, add_prepared-IsSound, add_with_provider-IsSound, close-IsSound,
  reset-IsSound, turn-IsSound,
}

module _ {V P : Type 0} where
  -- The configs that the agent prepares run every goroutine of a batch.
  pub record PreparesFair (out : Outside V P) : Type 0 where
    pub prepares :
        (p : P) (w : V) (cfg : ChatConfig V) → (out.prepare p w).0 ≡ ok cfg → IsFair cfg.env
    pub prepares_code :
        (p : P) (work_dir : Text) (w : V) (cfg : ChatConfig V)
        → (out.prepare_code p work_dir w).0 ≡ ok cfg
        → IsFair cfg.env

  abbrev SoundAfter : Option (SessionManager V P × V) → Type 0
  SoundAfter none = Unit
  SoundAfter (some (sm, w)) = IsSound sm

  after_turn-SoundAfter :
      (o : TurnResult V P)
      → ((r : Result SessionError Text) (sm : SessionManager V P) (w : V)
          → o ≡ some (r, sm, w)
          → IsSound sm)
      → SoundAfter (after_turn o)
  after_turn-SoundAfter none h = tt
  after_turn-SoundAfter (some (r, sm, w)) h = h r sm w refl

  empty-IsSound :
      (p : P) (cfg : ChatConfig V)
      → IsFair cfg.env
      → IsSound (record { provider = p; chat_cfg = cfg; sessions = [] })
  unfolding lookup
  empty-IsSound p cfg f = record {
    distinct = tt;
    shared_fair = f;
    sound = λ id sess h. absurd (none_found h);
  }
    where
      none_found : {A : Type 0} {x : A} → none ≢ some x
      none_found e = cc

module _ {V P : Type 0} (out : Outside V P) (fair : PreparesFair out) where
  perform-SoundAfter :
      (c : Call V) (sm : SessionManager V P) (w : V) → IsSound sm → SoundAfter (perform out c sm w)
  unfolding perform create create_code create_with_model create_code_with_model
  perform-SoundAfter create_call sm w s =
      add_session-IsSound out sm.chat_cfg none [] sm w s refl (λ c e. absurd cc)
  perform-SoundAfter (create_code_call work_dir) sm w s =
      add_prepared-IsSound out _ sm _ s (fair.prepares_code sm.provider work_dir w)
  perform-SoundAfter (create_with_model_call model) sm w s =
      add_with_provider-IsSound out model _ out.prepare sm _ s fair.prepares
  perform-SoundAfter (create_code_with_model_call work_dir model) sm w s =
      add_with_provider-IsSound out model _ (λ p. out.prepare_code p work_dir) sm _ s
        (λ p. fair.prepares_code p work_dir)
  perform-SoundAfter (close_call id) sm w s = close-IsSound out id sm w s
  perform-SoundAfter (reset_call id) sm w s = reset-IsSound out id sm w s
  perform-SoundAfter (turn_call fuel id input extra cb) sm w s =
      after_turn-SoundAfter (run_turn_internal fuel id input extra cb sm w)
        (λ r sm' w'. turn-IsSound fuel id input extra cb sm sm' w w' r s)

  perform_all-SoundAfter :
      (calls : List (Call V)) (sm : SessionManager V P) (w : V)
      → IsSound sm
      → SoundAfter (perform_all out calls sm w)
  unfolding perform_all
  perform_all-SoundAfter [] sm w s = s
  perform_all-SoundAfter (c ∷ calls) sm w s = elim (Option-cases (perform out c sm w)) [
    | inl e ↦ rw (e, perform_all) tt
    | inr ((sm', w'), e) ↦
        rw (e, perform_all)
          (perform_all-SoundAfter calls sm' w' (subst SoundAfter e (perform-SoundAfter c sm w s)))
  ]

  new_session_manager-IsSound :
      (p : P) (w : V) (sm : SessionManager V P)
      → (new_session_manager out p w).0 ≡ ok sm
      → IsSound sm
  unfolding new_session_manager
  new_session_manager-IsSound p w sm e = elim (Result-cases (out.prepare p w).0) [
    | inl (cfg, prepared) ↦
        let same : record { provider = p; chat_cfg = cfg; sessions = [] } ≡ sm = cc in
        subst IsSound same (empty-IsSound p cfg (fair.prepares p w cfg prepared))
    | inr (msg, failed) ↦ let no : err msg ≡ ok sm = rw failed at e in cc
  ]

  -- After any calls on a new manager, every session stands under its own id, its messages are the
  -- initial messages of its config and behind them the logs of turns that were answered, and no id
  -- stands twice.
  pub perform_all-IsSound :
      (calls : List (Call V)) (p : P) (w w' : V) (sm sm' : SessionManager V P)
      → (new_session_manager out p w).0 ≡ ok sm
      → perform_all out calls sm w ≡ some (sm', w')
      → IsSound sm'
  perform_all-IsSound calls p w w' sm sm' started e =
      subst SoundAfter e
        (perform_all-SoundAfter calls sm w (new_session_manager-IsSound p w sm started))
