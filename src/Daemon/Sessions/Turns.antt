-- ===== src/Daemon/Sessions/Turns.antt =====
-- What one call of `runTurnInternal` does to the sessions.
use gonesis.Prelude.{
  ℕ, Text, text_eq_ne, Option, none, some, List, Result, ok, err, ◌≡◌, ◌≢◌, ◌⊎◌, inl, inr, refl,
  sym, ◌∙◌, Option-cases,
}
use mathlib.Core.Path.{subst}
use gonesis.Dict.Laws.{lookup-insert}
use gonesis.Provider.{Message, Response}
use gonesis.Provider.Batch.{IsFair}
use gonesis.Provider.Loop.{LoopEnd, answered, provider_failed, tool_done}
use gonesis.Session.Turn.{TurnLog, run_turn_stream-TurnLog}
use gonesis.Daemon.Sessions.{
  TurnWorld, ChatConfig, ManagedSession, SessionManager, SessionError, session_not_found,
  turn_failed, turn_done, Callbacks, get, store, act, or_nothing, base_config, turn_config,
  turn_reply, kept_messages, TurnResult, finish_turn, run_turn_internal,
}

-- The fields that a turn does not touch.
pub record SameSession {V : Type 0} (sess sess' : ManagedSession V) : Type 0 where
  pub same_id : sess'.id ≡ sess.id
  pub same_cfg : sess'.cfg ≡ sess.cfg
  pub same_welcome : sess'.welcome_text ≡ sess.welcome_text
  pub same_created : sess'.created_at ≡ sess.created_at

-- The result is that of some end of the loop. A turn that ends with an error, ErrDone included, leaves
-- the log; an answered one extends it by the input and whole rounds, the last of which is the answer.
abbrev pub Logged : List Message → Text → List Message → Result SessionError Text → Type 0
Logged before input behind r =
    ((e : SessionError) × (end : LoopEnd) × (r ≡ err e)
      × (turn_reply end ≡ err e)
      × (behind ≡ before))
    ⊎ ((resp : Response) × (r ≡ ok (resp.message.content))
        × TurnLog before input behind (answered resp))

module _ {V P : Type 0} where
  -- All that a turn of the session `id` does: nothing but an error if there is no such session, and
  -- else a change of its log and its todo list.
  abbrev pub TurnEffect :
      Text → Text → SessionManager V P → Result SessionError Text → SessionManager V P → Type 0
  TurnEffect id input sm r sm' =
      ((get id sm ≡ none) × (r ≡ err (session_not_found id)) × (sm' ≡ sm))
      ⊎ ((sess sess' : ManagedSession V) × (get id sm ≡ some sess)
          × (sm' ≡ store id sess' sm)
          × SameSession sess sess'
          × Logged sess.messages input sess'.messages r)

  abbrev HasEffect : Text → Text → SessionManager V P → TurnResult V P → Type 0
  HasEffect id input sm none = Unit
  HasEffect id input sm (some (r, sm', w)) = TurnEffect id input sm r sm'

  -- The configs of all sessions run every goroutine of a batch.
  pub record AllFair (sm : SessionManager V P) : Type 0 where
    pub shared_fair : IsFair sm.chat_cfg.env
    pub own_fair :
        (id : Text) (sess : ManagedSession V) (cfg : ChatConfig V)
        → get id sm ≡ some sess
        → sess.cfg ≡ some cfg
        → IsFair cfg.env

  base_config-IsFair :
      (sm : SessionManager V P) (id : Text) (sess : ManagedSession V) (o : Option (ChatConfig V))
      → AllFair sm
      → get id sm ≡ some sess
      → sess.cfg ≡ o
      → IsFair (base_config sm.chat_cfg o).env
  base_config-IsFair sm id sess none fair h e = fair.shared_fair
  base_config-IsFair sm id sess (some cfg) fair h e = fair.own_fair id sess cfg h e

  finish_turn-HasEffect :
      (id input : Text) (sess : ManagedSession V) (sm : SessionManager V P)
      (o : Option (List Message × LoopEnd × TurnWorld V))
      → get id sm ≡ some sess
      → ((updated : List Message) (end : LoopEnd) (w : TurnWorld V)
          → o ≡ some (updated, end, w)
          → TurnLog sess.messages input updated end)
      → HasEffect id input sm (finish_turn id sess sm o)
  unfolding finish_turn
  finish_turn-HasEffect id input sess sm none h log = tt
  finish_turn-HasEffect id input sess sm (some (updated, end, w)) h log = inr (
    sess,
    _,
    h,
    refl,
    record { same_id = refl; same_cfg = refl; same_welcome = refl; same_created = refl },
    logged end (log updated end w refl),
  )
    where
      logged :
          (end : LoopEnd)
          → TurnLog sess.messages input updated end
          → Logged sess.messages input (kept_messages sess.messages updated end) (turn_reply end)
      logged (answered resp) l = inr (resp, refl, l)
      logged (provider_failed e) l = inl (turn_failed e, provider_failed e, refl, refl, refl)
      logged (tool_done resp) l = inl (turn_done, tool_done resp, refl, refl, refl)

  run_turn_internal-HasEffect :
      (fuel : ℕ) (id input extra : Text) (cb : Callbacks V) (sm : SessionManager V P) (w : V)
      → AllFair sm
      → HasEffect id input sm (run_turn_internal fuel id input extra cb sm w)
  unfolding run_turn_internal
  run_turn_internal-HasEffect fuel id input extra cb sm w fair = elim (Option-cases (get id sm)) [
    | inl out ↦ rw (out, run_turn_internal) (inl (out, refl, refl))
    | inr (sess, h) ↦
        let cfg = turn_config (base_config sm.chat_cfg sess.cfg) extra cb in
        let same_schedule : IsFair cfg.env = record {
          covers = (base_config-IsFair sm id sess sess.cfg fair h refl).covers;
        } in
        rw (h, run_turn_internal)
          (finish_turn-HasEffect id input sess sm _ h (λ updated end w'.
            run_turn_stream-TurnLog cfg same_schedule (λ chunk. act (or_nothing cb.on_chunk chunk))
              fuel sess.messages input _ w' updated end))
  ]

  pub run_turn_internal_lem :
      (fuel : ℕ) (id input extra : Text) (cb : Callbacks V) (sm sm' : SessionManager V P) (w w' : V)
      (r : Result SessionError Text)
      → AllFair sm
      → run_turn_internal fuel id input extra cb sm w ≡ some (r, sm', w')
      → TurnEffect id input sm r sm'
  run_turn_internal_lem fuel id input extra cb sm sm' w w' r fair e =
      subst (HasEffect id input sm) e (run_turn_internal-HasEffect fuel id input extra cb sm w fair)

  -- A turn of one session leaves every other session as it was.
  pub run_turn_internal-others :
      (fuel : ℕ) (id j input extra : Text) (cb : Callbacks V) (sm sm' : SessionManager V P)
      (w w' : V) (r : Result SessionError Text)
      → AllFair sm
      → j ≢ id
      → run_turn_internal fuel id input extra cb sm w ≡ some (r, sm', w')
      → get j sm' ≡ get j sm
  run_turn_internal-others fuel id j input extra cb sm sm' w w' r fair other e =
      elim (run_turn_internal_lem fuel id input extra cb sm sm' w w' r fair e) [
        | inl (out, r_err, same) ↦ rw same refl
        | inr (sess, sess', h, same, kept, logged) ↦
            rw same (
              lookup-insert id j sess' sm.sessions ∙ rw (text_eq_ne id j (λ q. other (sym q))) refl)
      ]
