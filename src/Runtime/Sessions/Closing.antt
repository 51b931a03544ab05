-- ===== src/Runtime/Sessions/Closing.antt =====
-- plugin/src/runtime.ts, closeSession: what is left behind.
use openclaw_sip_voice.Base.{ℕ, ◌≡◌, String, Option, none, some, arith}
use openclaw_sip_voice.Runtime.State.{
  Env, State, Session, Receiver, Ending, returned, promised, threw, set_session,
}
use openclaw_sip_voice.Runtime.Records.{record_error, in_call}
use openclaw_sip_voice.Runtime.Sessions.{close_session, close_found, after_close_call}

module _ (env : Env) where
  no_session : (r : ℕ) (s : State) → ((set_session r none s).objects r).session ≡ none
  no_session r s = ground arith

  after_close_call-session :
      (r : ℕ) (id : String) (p : Ending × State)
      → (((after_close_call env r id p).1.objects r).session ≡ none)
  unfolding after_close_call
  after_close_call-session r id (returned, s) = no_session r s
  after_close_call-session r id (promised, s) = no_session r s
  after_close_call-session r id (threw message, s) =
      no_session r (record_error env message (in_call id "session_close_failed") s)

  close_found-session :
      (r : ℕ) (id : String) (o : Option (Session × Receiver)) (s : State)
      → (((close_found env r id o s).1.objects r).session ≡ none)
  unfolding close_found
  close_found-session r id none s = no_session r s
  close_found-session r id (some (session, receiver)) s = after_close_call-session r id _

  -- Whatever happens while it closes, a call is left without a session, so that none is closed twice.
  pub close_session-session :
      (r : ℕ) (reason : String) (s : State)
      → ((close_session env r reason s).1.objects r).session ≡ none
  unfolding close_session
  close_session-session r reason s = close_found-session r _ _ _
