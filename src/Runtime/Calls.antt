-- ===== src/Runtime/Calls.antt =====
-- plugin/src/runtime.ts: the handlers of the bridge's events, and the continuations of promises.
pub mod Pending
use openclaw_sip_voice.Base.{
  ℕ, suc, ◌+◌, Bool, true, String, List, [], ◌∷◌, Option, none, some, if◌then◌else◌, ltb, ◌==◌,
  map_get, map_set, map_delete, length,
}
use openclaw_sip_voice.Protocol.Value.{Number, nat, str, num}
use openclaw_sip_voice.Protocol.Builders.{RemoteParty}
use openclaw_sip_voice.Runtime.State.{
  Env, State, ManagedCall, PendingOutboundCall, Direction, inbound, outbound, CallState, active,
  ending, CallEndEvent, call_answer, call_hangup, Reply, accepted, refused, speaking, is_ended,
  modify, set_state,
}
use openclaw_sip_voice.Runtime.Records.{record_event, record_error, for_call, bare_call, in_call}
use openclaw_sip_voice.Runtime.Sink.{send}
use openclaw_sip_voice.Runtime.Sessions.{
  optional_text, optional_number, add_job, finish_call_after_session_close, create_session_for_call,
  send_realtime_speech,
}

-- The fields of CallStartEvent that the runtime reads.
pub record CallStartEvent : Type 0 where
  pub call_id : String
  pub direction : Direction
  pub state : CallState
  pub remote : RemoteParty
  pub sent_at : String
  pub requested_by_command_id : Option String

-- maxConcurrentCallsFromConfig
unfoldable pub max_concurrent_calls_from_config : Number → ℕ
max_concurrent_calls_from_config (nat n) = if ltb 0 n then n else 1
max_concurrent_calls_from_config _ = 1

-- activeCallCount
unfoldable pub active_count : (ℕ → ManagedCall) → List (String × ℕ) → ℕ
active_count objects [] = 0
active_count objects ((id, r) ∷ calls) =
    if is_ended (objects r).state
    then active_count objects calls
    else suc (active_count objects calls)

-- reservedCallCount
unfoldable pub reserved_call_count : State → ℕ
reserved_call_count s = active_count s.objects s.calls + length s.pending_outbound_calls

abbrev pub state_name : CallState → String
state_name CallState.ringing = "ringing"
state_name CallState.dialing = "dialing"
state_name CallState.active = "active"
state_name CallState.ending = "ending"
state_name CallState.ended = "ended"

abbrev pub direction_name : Direction → String
direction_name inbound = "inbound"
direction_name outbound = "outbound"

-- A new object in the store, and its entry in `calls`.
unfoldable pub add_call : String → ManagedCall → State → State
add_call id call s =
    modify s.next_object (λ _. call)
      (record s { calls = map_set id s.next_object s.calls; next_object = suc s.next_object })

module _ (env : Env) where
  abbrev pub max_calls : ℕ
  max_calls = max_concurrent_calls_from_config env.max_concurrent_calls

  -- canAcceptAnotherCall
  unfoldable pub can_accept_another_call : State → Bool
  can_accept_another_call s = ltb (reserved_call_count s) max_calls

  unfoldable pub rejected : String → Reply × State → State
  rejected id (accepted command_id, s) =
      record_event env "call.reject"
        (for_call id (("maxConcurrentCalls", num (nat max_calls)) ∷ [])) s
  rejected id (refused message, s) = record_error env message (in_call id "hangup_failed") s

  -- The refusal of a call beyond the limit, the same in both handlers.
  unfoldable pub reject_call : String → State → State
  unfolding rejected
  reject_call id s = rejected id (
      send env (call_hangup id "failed")
        (record_error env "maxConcurrentCalls reached" (in_call id "call_rejected") s))

  abbrev pub new_call : CallStartEvent → CallState → Option String → ManagedCall
  new_call event state requested = record {
    call_id = event.call_id;
    direction = event.direction;
    state = state;
    remote = event.remote;
    started_at = event.sent_at;
    ended_at = none;
    requested_by_command_id = requested;
    outcome = none;
    end_reason = none;
    session = none;
    next_audio_out_sequence = 0;
    outbound_audio_remainder = [];
  }

  unfoldable pub answered : ℕ → String → Reply × State → State
  answered r id (accepted command_id, s) =
      (create_session_for_call env r (record_event env "call.answer" (bare_call id) s)).1
  answered r id (refused message, s) =
      let s' = record_error env message (in_call id "answer_failed") s in
      record s' { calls = map_delete id s'.calls }

  -- handleInboundCallStart
  unfoldable pub handle_inbound_call_start : CallStartEvent → State → State
  unfolding answered
  handle_inbound_call_start event s =
      let id = event.call_id in
      if can_accept_another_call s
      then answered s.next_object id
          (send env (call_answer id) (add_call id (new_call event active none) s))
      else reject_call id s

  abbrev pub find_pending : Option String → State → Option PendingOutboundCall
  find_pending none s = none
  find_pending (some command_id) s = map_get command_id s.pending_outbound_calls

  abbrev pub drop_pending : Option String → State → State
  drop_pending none s = s
  drop_pending (some command_id) s = record s {
    pending_outbound_calls = map_delete command_id s.pending_outbound_calls;
  }

  unfoldable pub greet : ℕ → Option String → Bool × State → State
  greet r (some message) (true, s) =
      let (awaited, s') = send_realtime_speech env r message s in
      add_job (speaking (s.objects r).call_id awaited) s'
  greet r _ (_, s) = s

  abbrev pub message_of : Option PendingOutboundCall → Option String
  message_of none = none
  message_of (some pending) = pending.message

  -- The end of handleOutboundCallStart, for a call that is taken.
  unfoldable pub take_outbound_call : CallStartEvent → Option String → State → State
  unfolding greet
  take_outbound_call event message s = greet s.next_object message (
      create_session_for_call env s.next_object
        (add_call event.call_id (new_call event event.state event.requested_by_command_id) s))

  unfoldable pub outbound_found : CallStartEvent → Option PendingOutboundCall → State → State
  outbound_found event (some pending) s = take_outbound_call event pending.message s
  outbound_found event none s =
      if can_accept_another_call s
      then take_outbound_call event none s
      else reject_call event.call_id s

  -- handleOutboundCallStart
  unfoldable pub handle_outbound_call_start : CallStartEvent → State → State
  unfolding outbound_found
  handle_outbound_call_start event s =
      outbound_found event (find_pending event.requested_by_command_id s)
        (drop_pending event.requested_by_command_id s)

  abbrev pub start_new_call : CallStartEvent → Direction → State → State
  start_new_call event inbound s = handle_inbound_call_start event s
  start_new_call event outbound s = handle_outbound_call_start event s

  unfoldable pub start_or_update : CallStartEvent → Option ℕ → State → State
  start_or_update event none s = start_new_call event event.direction s
  start_or_update event (some r) s = set_state r event.state s

  -- handleCallStart
  unfoldable pub handle_call_start : CallStartEvent → State → State
  unfolding start_or_update
  handle_call_start event s =
      let s' =
        record_event env "call.start"
          (for_call event.call_id (
            ("direction", str (direction_name event.direction))
            ∷ ("state", str (state_name event.state))
            ∷ ("requestedByCommandId", optional_text event.requested_by_command_id)
            ∷ []))
          s in
      start_or_update event (map_get event.call_id s'.calls) s'

  -- The loop over the pending calls whose command id is that of the event.
  unfoldable pub drop_pending_commands :
      String → List (String × PendingOutboundCall) → List (String × PendingOutboundCall)
  drop_pending_commands id [] = []
  drop_pending_commands id ((key, pending) ∷ m) =
      if pending.command_id == id
      then drop_pending_commands id m
      else (key, pending) ∷ drop_pending_commands id m

  unfoldable pub end_found : CallEndEvent → Option ℕ → State → State
  end_found event none s =
      record_event env "call.end"
        (for_call event.call_id
          (("outcome", str event.outcome) ∷ ("durationMs", optional_number event.duration_ms) ∷ []))
        (record s {
          pending_outbound_calls = drop_pending_commands event.call_id s.pending_outbound_calls;
        })
  end_found event (some r) s = finish_call_after_session_close env r event (set_state r ending s)

  -- handleCallEnd
  unfoldable pub handle_call_end : CallEndEvent → State → State
  unfolding end_found
  handle_call_end event s = end_found event (map_get event.call_id s.calls) s
