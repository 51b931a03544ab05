-- ===== src/Runtime/Invariant/Failing.antt =====
-- plugin/src/runtime.ts, handleConnectionFailure: the command that it clears the audio with.
use openclaw_sip_voice.Base.{
  ℕ, ◌≡◌, refl, sym, ap, ◌∙◌, subst, Bool, true, String, List, [], ◌∷◌, ◌++◌, append_assoc, Option,
  some, if_cases, arith, map_get,
}
use openclaw_sip_voice.Protocol.Builders.{CommandOptions, Fallbacks, build_audio_clear}
use openclaw_sip_voice.Protocol.Builders.Accepted.{IsRejected}
use openclaw_sip_voice.Runtime.State.{
  Env, State, Command, audio_clear, Effect, sent, Reply, ending, set_state, closing, nothing,
}
use openclaw_sip_voice.Runtime.Records.{record_error, in_call}
use openclaw_sip_voice.Runtime.Sink.{send, send_audio_clear}
use openclaw_sip_voice.Runtime.Sink.ClearReason.{failed_connection_is_no_reason}
use openclaw_sip_voice.Runtime.Sessions.{
  is_current, close_session, hang_up_failed, close_failed, handle_connection_failure, add_job,
}
use openclaw_sip_voice.Runtime.Invariant.Quiet.{
  Quiet, Quiet-trans, Quiet-record_error, Quiet-clear_buffers, Quiet-cleared, Quiet-close_found,
  Quiet-hang_up_failed,
}

-- From the state `s` to the state `t` the command was sent.
pub record SentNow (command : Command) (s t : State) : Type 0 where
  pub reply : Reply
  pub before : List Effect
  pub after : List Effect
  pub traced : t.trace ≡ after ++ (sent command reply ∷ (before ++ s.trace))

-- Some command to clear the audio of the call was sent with a reason that the protocol refuses, so
-- that it is refused with any envelope.
pub record ClearRefused (date_parses : String → Bool) (fallbacks : Fallbacks)
    (options : CommandOptions) (id : String) (s t : State) : Type 0 where
  pub reason : String
  pub was_sent : SentNow (audio_clear id (some reason)) s t
  pub not_built : IsRejected (build_audio_clear date_parses fallbacks options id (some reason))

SentNow-later :
    (command : Command) {s t u : State} → SentNow command s t → Quiet t u → SentNow command s u
SentNow-later command {s} now q =
    let (later, e) = q.traced in
    record {
      reply = now.reply;
      before = now.before;
      after = later ++ now.after;
      traced =
          e ∙ ap (λ effects. later ++ effects) now.traced ∙ sym (append_assoc later now.after _);
    }

SentNow-earlier :
    (command : Command) {s t u : State} → Quiet s t → SentNow command t u → SentNow command s u
SentNow-earlier command {s} q now =
    let (later, e) = q.traced in
    record {
      reply = now.reply;
      before = now.before ++ later;
      after = now.after;
      traced =
          now.traced
          ∙ ap (λ effects. now.after ++ (sent command now.reply ∷ effects))
              (ap (λ effects. now.before ++ effects) e
                ∙ sym (append_assoc now.before later s.trace));
    }

module _ (env : Env) where
  send-SentNow : (command : Command) (s : State) → SentNow command s (send env command s).1
  unfolding send
  send-SentNow command s = record { reply = _; before = []; after = []; traced = refl }

  send_audio_clear-SentNow :
      (id : String) (reason : Option String) (s : State)
      → SentNow (audio_clear id reason) s (send_audio_clear env id reason s)
  unfolding send_audio_clear
  send_audio_clear-SentNow id reason s =
      SentNow-later (audio_clear id reason)
        (SentNow-earlier (audio_clear id reason) (Quiet-clear_buffers env (map_get id s.calls) s)
          (send-SentNow (audio_clear id reason) _))
        (Quiet-cleared env id reason _)

  close_session-SentNow :
      (r : ℕ) (reason : String) (s : State)
      → SentNow (audio_clear (s.objects r).call_id (some reason)) s (close_session env r reason s).1
  unfolding close_session
  close_session-SentNow r reason s =
      SentNow-later (audio_clear (s.objects r).call_id (some reason))
        (send_audio_clear-SentNow (s.objects r).call_id (some reason) s)
        (Quiet-close_found env r _ _ _)

  -- Only the traces of the states count.
  traced_alike :
      {command : Command} {s t s' t' : State}
      → SentNow command s t
      → s.trace ≡ s'.trace
      → t.trace ≡ t'.trace
      → SentNow command s' t'
  traced_alike {command} now e k = record {
    reply = now.reply;
    before = now.before;
    after = now.after;
    traced =
        sym k
        ∙ now.traced
        ∙ ap (λ trace. now.after ++ (sent command now.reply ∷ (now.before ++ trace))) e;
  }

  same_call_id :
      (r : ℕ) (s : State) → ((set_state r ending s).objects r).call_id ≡ (s.objects r).call_id
  same_call_id r s = ground arith

  -- What closing a session that failed to connect sends.
  abbrev FailureCleared : String → State → State → Type 0
  FailureCleared id s t = SentNow (audio_clear id (some "session_connect_failed")) s t

  close_failed-FailureCleared :
      (r : ℕ) (s : State) → FailureCleared (s.objects r).call_id s (close_failed env r s)
  unfolding close_failed
  close_failed-FailureCleared r s =
      let t = set_state r ending s in
      let found : FailureCleared (t.objects r).call_id s
          (close_session env r "session_connect_failed" t).1 =
        traced_alike (close_session-SentNow r "session_connect_failed" t) refl refl in
      subst (λ id. FailureCleared id s (close_failed env r s)) (same_call_id r s)
        (if_cases (FailureCleared (t.objects r).call_id s)
          (close_session env r "session_connect_failed" t).0
          {x = add_job (closing r nothing) (close_session env r "session_connect_failed" t).1}
          {y = (close_session env r "session_connect_failed" t).1}
          (λ _. traced_alike found refl refl) (λ _. found))

  handle_connection_failure-FailureCleared :
      (r : ℕ) (message : String) (s : State)
      → is_current r s ≡ true
      → FailureCleared (s.objects r).call_id s (handle_connection_failure env r message s)
  unfolding handle_connection_failure is_current record_error
  handle_connection_failure-FailureCleared r message s current =
      let id = (s.objects r).call_id in
      let s' = record_error env message (in_call id "session_connect_failed") s in
      let q : Quiet s (hang_up_failed env id s') =
        Quiet-trans (Quiet-record_error env message _ s) (Quiet-hang_up_failed env id s') in
      rw current (
        SentNow-earlier _ q (
          subst
            (λ name.
              FailureCleared name (hang_up_failed env id s')
                (close_failed env r (hang_up_failed env id s')))
            (q.ids r) (close_failed-FailureCleared r (hang_up_failed env id s'))))

  -- If the session of a call that is current fails to connect, then handleConnectionFailure sends a
  -- command to clear the call's audio with a reason that the protocol refuses: whatever the envelope of
  -- that command is, building it throws a validation error.
  pub handle_connection_failure-ClearRefused :
      (date_parses : String → Bool) (fallbacks : Fallbacks) (options : CommandOptions) (r : ℕ)
      (message : String) (s : State)
      → is_current r s ≡ true
      → ClearRefused date_parses fallbacks options
          (s.objects r).call_id
          s
          (handle_connection_failure env r message s)
  handle_connection_failure-ClearRefused date_parses fallbacks options r message s current =
      record {
        reason = "session_connect_failed";
        was_sent = handle_connection_failure-FailureCleared r message s current;
        not_built =
            failed_connection_is_no_reason date_parses fallbacks options (s.objects r).call_id;
      }
