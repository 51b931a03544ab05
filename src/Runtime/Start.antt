-- ===== src/Runtime/Start.antt =====
-- plugin/src/runtime.ts, createSipVoiceRuntime: the state at the start, the end of the start, the
-- status, and the histories of the runtime as sequences of steps.
use openclaw_sip_voice.Base.{
  ℕ, ◌≡◌, Bool, true, false, String, List, [], ◌∷◌, Option, none, some, if◌then◌else◌, length, ◌==◌,
}
use openclaw_sip_voice.Protocol.Value.{Value}
use openclaw_sip_voice.Protocol.Builders.{RemoteParty}
use openclaw_sip_voice.Runtime.State.{
  Env, State, ManagedCall, BridgeState, Direction, inbound, CallState, ended, ending, Reply,
  accepted, refused, status_get, SinkCall, Settlement, EventRecord, ErrorRecord, is_ended,
}
use openclaw_sip_voice.Runtime.Snapshot.{sanitize_optional}
use openclaw_sip_voice.Runtime.Records.{
  redact_optional, record_event, record_error, no_params, with_code,
}
use openclaw_sip_voice.Runtime.Sink.{send, run_sink_calls}
use openclaw_sip_voice.Runtime.Calls.{active_count, max_calls}
use openclaw_sip_voice.Runtime.Api.{
  BridgeEvent, call_start, update_bridge_state, handle_bridge_event, handle_state_change, settle,
  call, speak, hangup, stop,
}

-- What an unused place of the store holds; nothing refers to it.
abbrev blank_call : ManagedCall
blank_call = record {
  call_id = "";
  direction = inbound;
  state = ended;
  remote = record { handle = ""; display_name = none };
  started_at = "";
  ended_at = none;
  requested_by_command_id = none;
  outcome = none;
  end_reason = none;
  session = none;
  next_audio_out_sequence = 0;
  outbound_audio_remainder = [];
}

-- The state when the listeners have been attached, from the client's state.
unfoldable pub initial : BridgeState → State
initial b = record {
  stopped = false;
  listening = true;
  latest_bridge_state = b;
  hello_snapshot = b.hello;
  status_snapshot = b.last_status;
  calls = [];
  objects = λ r. blank_call;
  next_object = 0;
  pending_outbound_calls = [];
  recent_events = [];
  recent_errors = [];
  jobs = [];
  trace = [];
  clock_reads = 1;
}

-- callStatusFromRecord
pub record CallStatus : Type 0 where
  pub call_id : String
  pub direction : Direction
  pub state : CallState
  pub remote : RemoteParty
  pub started_at : String
  pub requested_by_command_id : Option String

unfoldable pub call_status_from_record : ManagedCall → CallStatus
call_status_from_record call = record {
  call_id = call.call_id;
  direction = call.direction;
  state = if is_ended call.state then ending else call.state;
  remote = call.remote;
  started_at = call.started_at;
  requested_by_command_id = call.requested_by_command_id;
}

-- Array.from(calls.values()).filter(…).map(callStatusFromRecord)
unfoldable pub status_calls : (ℕ → ManagedCall) → List (String × ℕ) → List CallStatus
status_calls objects [] = []
status_calls objects ((id, r) ∷ calls) =
    if is_ended (objects r).state
    then status_calls objects calls
    else call_status_from_record (objects r) ∷ status_calls objects calls

-- The part of SipVoiceRuntimeStatus that shows the calls and the records.
pub record RuntimeStatus : Type 0 where
  pub enabled : Bool
  pub stopped : Bool
  pub bridge_connected : Bool
  pub connection_state : String
  pub hello : Option Value
  pub last_status : Option Value
  pub last_error : Option String
  pub active_calls : ℕ
  pub pending_calls : ℕ
  pub max_concurrent_calls : ℕ
  pub calls : List CallStatus
  pub recent_events : List EventRecord
  pub recent_errors : List ErrorRecord

module _ (env : Env) where
  unfoldable pub status_requested : Reply × State → State
  status_requested (accepted _, s) = s
  status_requested (refused message, s) = record_error env message (with_code "status_get_failed") s

  -- What follows on `await bridge.connect()`; `b` is the client's state then.
  unfoldable pub connected : Settlement → BridgeState → State → State
  unfolding status_requested
  connected none b s =
      status_requested (
        send env status_get (record_event env "bridge.connect" no_params (update_bridge_state b s)))
  connected (some message) b s =
      record_error env message (with_code "bridge_connect_failed") (update_bridge_state b s)

  -- The start of a runtime that is disabled.
  unfoldable pub start_disabled : State → State
  start_disabled s = record_event env "runtime.disabled" no_params s

  -- getStatus, less the configuration, the provider and the time of the start; `b` is the client's
  -- state. Its error is formatted by redactSensitiveText.
  unfoldable pub get_status : BridgeState → State → RuntimeStatus × State
  get_status b s = (
    record {
      enabled = env.enabled;
      stopped = s.stopped;
      bridge_connected = b.connection_state == "connected";
      connection_state = b.connection_state;
      hello = sanitize_optional env.redact (update_bridge_state b s).hello_snapshot;
      last_status = sanitize_optional env.redact (update_bridge_state b s).status_snapshot;
      last_error = redact_optional env b.last_error;
      active_calls = active_count s.objects s.calls;
      pending_calls = length s.pending_outbound_calls;
      max_concurrent_calls = max_calls env;
      calls = status_calls s.objects s.calls;
      recent_events = s.recent_events;
      recent_errors = s.recent_errors;
    },
    update_bridge_state b s,
  )

  -- A call that starts has not ended: CallStartEvent has no such state.
  abbrev pub IsStart : BridgeEvent → Type 0
  IsStart (call_start event) = is_ended event.state ≡ false
  IsStart _ = Unit

  -- What can happen next, in any order: an event or a new state of the client while the listeners are
  -- attached, a promise that is settled, a session that uses its sink, and the methods.
  pub data Step (s : State) : State → Type 0 where
    bridge_event :
        (e : BridgeEvent) → s.listening ≡ true → IsStart e → Step s (handle_bridge_event env e s)
    bridge_state : (b : BridgeState) → s.listening ≡ true → Step s (handle_state_change env b s)
    bridge_connected : (outcome : Settlement) (b : BridgeState) → Step s (connected outcome b s)
    found_disabled : Step s (start_disabled s)
    settled : (i : ℕ) (outcome : Settlement) → Step s (settle env i outcome s)
    sink_used : (id : String) (calls : List SinkCall) → Step s (run_sink_calls env id calls s)
    asked_status : (b : BridgeState) → Step s (get_status b s).1
    called : (remote : RemoteParty) (message : Option String) → Step s (call env remote message s).1
    spoke : (id message : String) → Step s (speak env id message s).1
    hung_up : (id : String) → Step s (hangup env id s).1
    stopped : Step s (stop env s)

  pub data Reach (s : State) : State → Type 0 where
    here : Reach s s
    next : {t u : State} → Reach s t → Step t u → Reach s u
