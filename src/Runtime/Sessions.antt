-- ===== src/Runtime/Sessions.antt =====
-- plugin/src/runtime.ts: the realtime session of a call: closeSession, finalizeCall,
-- createSessionForCall, connectRealtimeSession, sendAudioToRealtime and sendRealtimeSpeech.
pub mod Closing
use openclaw_sip_voice.Base.{
  ℕ, suc, Bool, true, false, not, ◌&&◌, String, [], ◌∷◌, ◌++◌, Option, none, some, if◌then◌else◌,
  eqb, map_get, map_delete,
}
use openclaw_sip_voice.Protocol.Value.{Value, str, num, nat, Number, undefined}
use openclaw_sip_voice.Runtime.State.{
  Env, State, ManagedCall, Methods, Session, CallEndEvent, ending, ended, call_hangup, accepted,
  refused, Receiver, session_itself, session_bridge, Invocation, connects, closes, sends_audio,
  speaks, sends_text, Ending, returned, promised, threw, Creation, created, not_created, invoked,
  asked_session, nothing, finalizing, Awaited, promise, at_hand, Job, connecting, closing, hearing,
  is_ended, modify, set_state, set_session,
}
use openclaw_sip_voice.Runtime.Records.{record_event, record_error, for_call, bare_call, in_call}
use openclaw_sip_voice.Runtime.Sink.{send, send_audio_clear, run_sink_calls}

-- session.m ?? session.bridge?.m, as the object that has the method.
unfoldable pub receiver_of : (Methods → Bool) → Session → Option Receiver
receiver_of method session =
    if method session.own then some session_itself else elim session.bridge [
      | none ↦ none
      | some bridge ↦ if method bridge then some session_bridge else none
    ]

abbrev pub find_method : (Methods → Bool) → Option Session → Option (Session × Receiver)
find_method method none = none
find_method method (some session) = elim (receiver_of method session) [
  | none ↦ none
  | some receiver ↦ some (session, receiver)
]

abbrev pub optional_text : Option String → Value
optional_text none = undefined
optional_text (some s) = str s

abbrev pub optional_number : Option Number → Value
optional_number none = undefined
optional_number (some n) = num n

-- calls.get(call.callId) === call && call.state !== "ended"
unfoldable pub is_current : ℕ → State → Bool
is_current r s = elim (map_get (s.objects r).call_id s.calls) [
  | none ↦ false
  | some q ↦ eqb q r && not (is_ended (s.objects r).state)
]

abbrev pub add_job : Job → State → State
add_job job s = record s { jobs = s.jobs ++ job ∷ [] }

-- The assignments of finalizeCall.
abbrev pub end_call : String → CallEndEvent → ManagedCall → ManagedCall
end_call at event call = record call {
  state = ended;
  ended_at = some at;
  outcome = some event.outcome;
  end_reason = event.reason_code;
}

module _ (env : Env) where
  -- A call of a method of a session. What it does with the sink happens while it runs.
  unfoldable pub invoke : String → Session → Receiver → Invocation → State → Ending × State
  invoke id session receiver invocation s =
      let answer = env.invoke s.trace session.handle receiver invocation in
      (
        answer.ending,
        run_sink_calls env id answer.sink_calls
            (record s { trace = invoked session.handle receiver invocation answer ∷ s.trace }),
      )

  -- The rest of closeSession after `close` was called. `true`: it returned a promise.
  unfoldable pub after_close_call : ℕ → String → Ending × State → Bool × State
  after_close_call r id (returned, s) = (false, set_session r none s)
  after_close_call r id (promised, s) = (true, set_session r none s)
  after_close_call r id (threw message, s) =
      (false, set_session r none (record_error env message (in_call id "session_close_failed") s))

  unfoldable pub close_found : ℕ → String → Option (Session × Receiver) → State → Bool × State
  unfolding after_close_call
  close_found r id none s = (false, set_session r none s)
  close_found r id (some (session, receiver)) s =
      after_close_call r id (invoke id session receiver closes s)

  -- closeSession
  unfoldable pub close_session : ℕ → String → State → Bool × State
  unfolding close_found
  close_session r reason s =
      let id = (s.objects r).call_id in
      let s' = send_audio_clear env id (some reason) s in
      close_found r id (find_method (λ m. m.close) (s'.objects r).session) s'

  -- finalizeCall
  unfoldable pub finalize_call : ℕ → CallEndEvent → State → State
  finalize_call r event s =
      let id = (s.objects r).call_id in
      let s' =
        modify r (end_call (env.now s.clock_reads) event)
          (record s { clock_reads = suc s.clock_reads }) in
      record_event env "call.end"
        (for_call id (
          ("outcome", str event.outcome)
          ∷ ("durationMs", optional_number event.duration_ms)
          ∷ ("reasonCode", optional_text event.reason_code)
          ∷ []))
        (record s' { calls = map_delete id s'.calls })

  -- finishCallAfterSessionClose
  unfoldable pub finish_call_after_session_close : ℕ → CallEndEvent → State → State
  finish_call_after_session_close r event s =
      let (waits, s') = close_session r "call_ending" s in
      if waits then add_job (closing r (finalizing event)) s' else finalize_call r event s'

  -- bridge.sendCallHangup with its `catch`, for a call that failed
  unfoldable pub hang_up_failed : String → State → State
  hang_up_failed id s =
      let (reply, s') = send env (call_hangup id "failed") s in
      elim reply [
        | accepted command_id ↦ s'
        | refused message ↦ record_error env message (in_call id "hangup_failed") s'
      ]

  -- The end of handleConnectionFailure.
  unfoldable pub close_failed : ℕ → State → State
  close_failed r s =
      let (waits, t) = close_session r "session_connect_failed" (set_state r ending s) in
      if waits then add_job (closing r nothing) t else t

  -- handleConnectionFailure
  unfoldable pub handle_connection_failure : ℕ → String → State → State
  unfolding close_failed
  handle_connection_failure r message s =
      let id = (s.objects r).call_id in
      let s' = record_error env message (in_call id "session_connect_failed") s in
      if is_current r s' then close_failed r (hang_up_failed id s') else s'

  -- handleConnected
  unfoldable pub handle_connected : ℕ → State → State
  handle_connected r s =
      if is_current r s
      then record_event env "realtime.session.ready" (bare_call (s.objects r).call_id) s
      else s

  -- The rest of connectRealtimeSession after `connect` was called.
  unfoldable pub after_connect_call : ℕ → String → Ending × State → State
  after_connect_call r id (returned, s) =
      handle_connected r (record_event env "realtime.session.connect" (bare_call id) s)
  after_connect_call r id (promised, s) =
      add_job (connecting r) (record_event env "realtime.session.connect" (bare_call id) s)
  after_connect_call r id (threw message, s) = handle_connection_failure r message s

  unfoldable pub connect_found : ℕ → String → Option (Session × Receiver) → State → State
  unfolding after_connect_call
  connect_found r id none s =
      record_error env "Realtime session does not expose connect()"
        (in_call id "realtime_contract_missing") s
  connect_found r id (some (session, receiver)) s =
      after_connect_call r id (invoke id session receiver connects s)

  -- connectRealtimeSession
  unfoldable pub connect_realtime_session : ℕ → State → State
  unfolding connect_found
  connect_realtime_session r s =
      connect_found r (s.objects r).call_id (find_method (λ m. m.connect) (s.objects r).session) s

  -- The rest of createSessionForCall after createRealtimeSession was called.
  unfoldable pub after_creation : ℕ → String → Creation → State → Bool × State
  after_creation r id (created sink_calls session) s =
      let s' = set_session r (some session) (run_sink_calls env id sink_calls s) in
      (
        true,
        connect_realtime_session r (
            record_event env "realtime.session.start"
              (for_call id (("provider", str env.provider) ∷ ("model", str env.model) ∷ [])) s'),
      )
  after_creation r id (not_created sink_calls message) s =
      let s' = hang_up_failed id (
        record_error env message (in_call id "session_start_failed")
          (run_sink_calls env id sink_calls s)) in
      let t = set_state r ended s' in (false, record t { calls = map_delete id t.calls })

  -- createSessionForCall
  unfoldable pub create_session_for_call : ℕ → State → Bool × State
  unfolding after_creation
  create_session_for_call r s =
      let id = (s.objects r).call_id in
      let creation = env.create_session s.trace id in
      after_creation r id creation (record s { trace = asked_session id creation ∷ s.trace })

  -- The rest of sendAudioToRealtime after `sendAudio` was called.
  unfoldable pub after_hearing : String → Number → ℕ → Ending × State → State
  after_hearing id sequence bytes (threw message, s) =
      record_error env message (in_call id "audio_in_failed") s
  after_hearing id sequence bytes (ending', s) =
      let s' =
        record_event env "audio.in"
          (for_call id (("sequence", num sequence) ∷ ("bytes", num (nat bytes)) ∷ [])) s in
      elim ending' [ promised ↦ add_job (hearing id) s' | _ ↦ s' ]

  unfoldable pub hear_found : String → Number → ℕ → Option (Session × Receiver) → State → State
  unfolding after_hearing
  hear_found id sequence bytes none s =
      record_error env "Realtime session does not expose sendAudio(Buffer)"
        (in_call id "realtime_contract_missing") s
  hear_found id sequence bytes (some (session, receiver)) s =
      after_hearing id sequence bytes (invoke id session receiver (sends_audio id) s)

  unfoldable pub hear_call : String → Number → ℕ → Option ℕ → State → State
  unfolding hear_found
  hear_call id sequence bytes none s =
      record_error env "audio.in for unknown call" (in_call id "call_not_found") s
  hear_call id sequence bytes (some r) s =
      if is_ended (s.objects r).state
      then record_error env "audio.in for unknown call" (in_call id "call_not_found") s
      else hear_found id sequence bytes (find_method (λ m. m.send_audio) (s.objects r).session) s

  -- sendAudioToRealtime; `bytes` is the number of bytes of the decoded payload.
  unfoldable pub send_audio_to_realtime : String → Number → ℕ → State → State
  unfolding hear_call
  send_audio_to_realtime id sequence bytes s = hear_call id sequence bytes (map_get id s.calls) s

  unfoldable pub after_speaking : String → Ending × State → Awaited × State
  after_speaking id (returned, s) = (at_hand none, s)
  after_speaking id (promised, s) = (promise, s)
  after_speaking id (threw message, s) = (at_hand (some message), s)

  -- `speak ?? sendText`
  unfoldable pub speak_found :
      String
      → String
      → Option (Session × Receiver)
      → Option (Session × Receiver)
      → State
      → Awaited × State
  unfolding after_speaking
  speak_found id message (some (session, receiver)) text s =
      after_speaking id (invoke id session receiver (speaks message) s)
  speak_found id message none (some (session, receiver)) s =
      after_speaking id (invoke id session receiver (sends_text message) s)
  speak_found id message none none s =
      (at_hand (some "Realtime session does not expose speak(message)"), s)

  -- sendRealtimeSpeech up to its `await`.
  unfoldable pub send_realtime_speech : ℕ → String → State → Awaited × State
  unfolding speak_found
  send_realtime_speech r message s =
      speak_found (s.objects r).call_id message (find_method (λ m. m.speak) (s.objects r).session)
        (find_method (λ m. m.send_text) (s.objects r).session) s
