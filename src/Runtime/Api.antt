-- ===== src/Runtime/Api.antt =====
-- plugin/src/runtime.ts: handleBridgeEvent, the state listener, the continuations of promises, the
-- methods of the runtime object, and the start.
use openclaw_sip_voice.Base.{
  ℕ, zero, suc, Bool, true, false, String, List, [], ◌∷◌, Option, none, some, if◌then◌else◌,
  map_get, map_set, map_delete,
}
use openclaw_sip_voice.Protocol.Value.{Number, nat, Value, str, num, bool}
use openclaw_sip_voice.Protocol.Builders.{RemoteParty}
use openclaw_sip_voice.Runtime.State.{
  Env, State, BridgeState, PendingOutboundCall, ending, CallEndEvent, call_dial, call_hangup,
  disconnect, Reply, accepted, refused, AfterClose, nothing, finalizing, hanging_up, promise,
  at_hand, Job, connecting, closing, hearing, speaking, Settlement, EventRecord, ErrorRecord,
  is_ended, set_state,
}
use openclaw_sip_voice.Runtime.Records.{
  record_event, record_error, bare_call, of_details, no_params, in_call, with_code, tail_of,
  limit_from_tail_request,
}
use openclaw_sip_voice.Runtime.Sink.{send}
use openclaw_sip_voice.Runtime.Sessions.{
  add_job, close_session, finalize_call, handle_connected, handle_connection_failure,
  send_audio_to_realtime, send_realtime_speech,
}
use Prim.Native.String.{◌++◌ as join}
use openclaw_sip_voice.Runtime.Calls.{
  CallStartEvent, can_accept_another_call, handle_call_start, handle_call_end,
}

-- The fields of each BridgeEvent that the runtime reads; snapshots keep the whole event.
pub data BridgeEvent : Type 0 where
  hello : (whole : Value) (bridge_id bridge_version : String) → BridgeEvent
  status : (whole : Value) (bridge_state registration : String) (active_calls : ℕ) → BridgeEvent
  error : (message code : String) (fatal : Bool) (call_id command_id : Option String) → BridgeEvent
  call_start : CallStartEvent → BridgeEvent
  audio_in : (call_id : String) (sequence : Number) (bytes : ℕ) → BridgeEvent
  call_end : CallEndEvent → BridgeEvent

-- What a method of the runtime returns or throws, with the message of the error.
pub data ApiResult {ℓ} (A : Type ℓ) : Type ℓ where
  done : A → ApiResult A
  thrown : String → ApiResult A

-- SipVoiceRuntimeOutboundCallResult
pub record OutboundCallResult : Type 0 where
  pub command_id : String
  pub remote : RemoteParty
  pub message_queued : Bool

-- updateBridgeState
abbrev pub or_kept : Option Value → Option Value → Option Value
or_kept none kept = kept
or_kept (some v) kept = some v

unfoldable pub update_bridge_state : BridgeState → State → State
update_bridge_state b s = record s {
  latest_bridge_state = b;
  hello_snapshot = or_kept b.hello s.hello_snapshot;
  status_snapshot = or_kept b.last_status s.status_snapshot;
}

abbrev pub forget_pending : Option String → State → State
forget_pending none s = s
forget_pending (some command_id) s = record s {
  pending_outbound_calls = map_delete command_id s.pending_outbound_calls;
}

abbrev pub remove_job : ℕ → List Job → List Job
remove_job i [] = []
remove_job zero (job ∷ jobs) = jobs
remove_job (suc i) (job ∷ jobs) = job ∷ remove_job i jobs

abbrev pub job_at : ℕ → List Job → Option Job
job_at i [] = none
job_at zero (job ∷ jobs) = some job
job_at (suc i) (job ∷ jobs) = job_at i jobs

module _ (env : Env) where
  -- handleBridgeEvent
  unfoldable pub handle_bridge_event : BridgeEvent → State → State
  handle_bridge_event (hello whole bridge_id bridge_version) s =
      record_event env "bridge.hello"
        (of_details (("bridgeId", str bridge_id) ∷ ("bridgeVersion", str bridge_version) ∷ []))
        (record s { hello_snapshot = some whole })
  handle_bridge_event (status whole bridge_state registration active_calls) s =
      record_event env "bridge.status"
        (of_details (
          ("bridgeState", str bridge_state)
          ∷ ("registration", str registration)
          ∷ ("bridgeActiveCalls", num (nat active_calls))
          ∷ []))
        (record s { status_snapshot = some whole })
  handle_bridge_event (error message code fatal call_id command_id) s =
      record_error env message (record { call_id = call_id; code = some code; fatal = some fatal })
        (forget_pending command_id s)
  handle_bridge_event (call_start event) s = handle_call_start env event s
  handle_bridge_event (audio_in call_id sequence bytes) s =
      send_audio_to_realtime env call_id sequence bytes s
  handle_bridge_event (call_end event) s = handle_call_end env event s

  -- The listener of the client's state.
  unfoldable pub handle_state_change : BridgeState → State → State
  unfolding update_bridge_state
  handle_state_change b s =
      record_event env "bridge.state"
        (of_details (("connectionState", str b.connection_state) ∷ [])) (update_bridge_state b s)

  -- The error handler of `close`, if the promise is rejected.
  unfoldable pub close_settled : String → Settlement → State → State
  close_settled id none s = s
  close_settled id (some message) s = record_error env message (in_call id "session_close_failed") s

  unfoldable pub close_continued : ℕ → AfterClose → State → State
  close_continued r nothing s = s
  close_continued r (finalizing event) s = finalize_call env r event s
  close_continued r hanging_up s =
      record_event env "call.hangup" (bare_call (s.objects r).call_id) s

  unfoldable pub speech_settled : String → Option String → State → State
  speech_settled id none s = record_event env "realtime.speak" (bare_call id) s
  speech_settled id (some message) s = record_error env message (in_call id "speak_failed") s

  -- What runs when the promise that a continuation waits for is settled.
  unfoldable pub run_job : Job → Settlement → State → State
  unfolding close_settled close_continued speech_settled
  run_job (connecting r) none s = handle_connected env r s
  run_job (connecting r) (some message) s = handle_connection_failure env r message s
  run_job (closing r after) settlement s =
      close_continued r after (close_settled (s.objects r).call_id settlement s)
  run_job (hearing id) none s = s
  run_job (hearing id) (some message) s = record_error env message (in_call id "audio_in_failed") s
  run_job (speaking id (at_hand failure)) settlement s = speech_settled id failure s
  run_job (speaking id promise) settlement s = speech_settled id settlement s

  unfoldable pub run_found : Option Job → Settlement → State → State
  run_found none settlement s = s
  run_found (some job) settlement s = run_job job settlement s

  -- The continuation at a place of the list runs and leaves it.
  unfoldable pub settle : ℕ → Settlement → State → State
  unfolding run_found
  settle i settlement s =
      run_found (job_at i s.jobs) settlement (record s { jobs = remove_job i s.jobs })

  unfoldable pub dialed :
      RemoteParty → Option String → Reply × State → ApiResult OutboundCallResult × State
  dialed remote message (refused failure, s) =
      (thrown failure, record_error env failure (with_code "dial_failed") s)
  dialed remote message (accepted command_id, s) =
      let queued = elim message as (λ _. Bool) [ none ↦ false | some _ ↦ true ] in
      let pending : PendingOutboundCall = record {
        command_id = command_id;
        remote = remote;
        message = message;
        started_at = env.now s.clock_reads;
      } in
      (
        done (record { command_id = command_id; remote = remote; message_queued = queued }),
        record_event env "call.dial"
            (of_details (
              ("commandId", str command_id)
              ∷ ("target", str remote.handle)
              ∷ ("hasMessage", bool queued)
              ∷ []))
            (record s {
              pending_outbound_calls = map_set command_id pending s.pending_outbound_calls;
              clock_reads = suc s.clock_reads;
            }),
      )

  abbrev pub refuse {ℓ} : {A : Type ℓ} → String → String → State → ApiResult A × State
  refuse message code s = (thrown message, record_error env message (with_code code) s)

  -- runtime.call, after normalizeRemoteParty
  unfoldable pub call : RemoteParty → Option String → State → ApiResult OutboundCallResult × State
  unfolding dialed
  call remote message s =
      if s.stopped
      then refuse "SIP voice runtime is stopped" "runtime_stopped" s
      else if env.enabled
      then (if can_accept_another_call env s
          then dialed remote message (send env (call_dial remote) s)
          else refuse "maxConcurrentCalls reached" "call_rejected" s)
      else refuse "SIP voice runtime is disabled" "runtime_disabled" s

  -- calls.get(callId), if the call has not ended
  abbrev pub find_open : String → State → Option ℕ
  find_open id s = elim (map_get id s.calls) [
    | none ↦ none
    | some r ↦ if is_ended (s.objects r).state then none else some r
  ]

  abbrev pub not_found {ℓ} : {A : Type ℓ} → String → State → ApiResult A × State
  not_found id s =
      let message = join "Call not found: " id in
      (thrown message, record_error env message (in_call id "call_not_found") s)

  unfoldable pub speak_open : String → String → Option ℕ → State → ApiResult (Unit {0}) × State
  speak_open id message none s = not_found id s
  speak_open id message (some r) s =
      let (awaited, s') = send_realtime_speech env r message s in
      (done tt, add_job (speaking id awaited) s')

  -- runtime.speak up to its `await`; the rest is the continuation `speaking`.
  unfoldable pub speak : String → String → State → ApiResult (Unit {0}) × State
  unfolding speak_open
  speak id message s = speak_open id message (find_open id s) s

  unfoldable pub hung_up : String → ℕ → Reply × State → ApiResult String × State
  hung_up id r (refused message, s) =
      (thrown message, record_error env message (in_call id "hangup_failed") s)
  hung_up id r (accepted command_id, s) =
      let (waits, s') = close_session env r "user_request" (set_state r ending s) in
      (
        done command_id,
        if waits
            then add_job (closing r hanging_up) s'
            else record_event env "call.hangup" (bare_call id) s',
      )

  unfoldable pub hangup_open : String → Option ℕ → State → ApiResult String × State
  unfolding hung_up
  hangup_open id none s = not_found id s
  hangup_open id (some r) s = hung_up id r (send env (call_hangup id "user_request") s)

  -- runtime.hangup, up to its `await` if `close` returns a promise
  unfoldable pub hangup : String → State → ApiResult String × State
  unfolding hangup_open
  hangup id s = hangup_open id (find_open id s) s

  -- runtime.tail
  unfoldable pub tail : Option Number → State → List EventRecord × List ErrorRecord
  tail limit s =
      let normalized = limit_from_tail_request limit in
      (tail_of normalized s.recent_events, tail_of normalized s.recent_errors)

  -- The loop of `stop` over the calls.
  unfoldable pub close_all : List (String × ℕ) → State → State
  close_all [] s = s
  close_all ((id, r) ∷ calls) s =
      let (waits, s') = close_session env r "call_ending" (set_state r ending s) in
      close_all calls (if waits then add_job (closing r nothing) s' else s')

  unfoldable pub disconnected : Reply × State → State
  disconnected (accepted _, s) = s
  disconnected (refused message, s) =
      record_error env message (with_code "bridge_disconnect_failed") s

  -- runtime.stop, up to the `await` at its end
  unfoldable pub stop : State → State
  unfolding close_all disconnected
  stop s =
      if s.stopped
      then s
      else disconnected (
          send env (disconnect 1000 "sip voice runtime stopped")
            (record (close_all s.calls
              (record (record_event env "runtime.stop" no_params (record s { stopped = true })) {
                listening = false;
              })) { calls = []; pending_outbound_calls = [] }))
