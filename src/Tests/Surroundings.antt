-- ===== src/Tests/Surroundings.antt =====
-- Surroundings, a bridge and a call for the tests of the runtime.
use openclaw_sip_voice.Base.{true, [], none, some}
use openclaw_sip_voice.Protocol.Value.{nat}
use openclaw_sip_voice.Protocol.Builders.{RemoteParty}
use openclaw_sip_voice.Runtime.State.{
  inbound, ringing, Methods, accepted, returned, created, BridgeState, Env, State, active,
}
use openclaw_sip_voice.Runtime.Calls.{CallStartEvent, add_call, new_call}
use openclaw_sip_voice.Runtime.Start.{initial}

abbrev pub all_methods : Methods
all_methods = record {
  connect = true;
  send_audio = true;
  speak = true;
  send_text = true;
  close = true;
}

-- Surroundings in which everything succeeds at once, with room for one call.
abbrev pub calm : Env
calm = record {
  enabled = true;
  max_concurrent_calls = nat 1;
  provider = "openai";
  model = "voice";
  now = λ n. "now";
  redact = λ text. text;
  send = λ trace command. accepted "cmd_000001";
  invoke = λ trace handle receiver invocation. record { sink_calls = []; ending = returned };
  create_session = λ trace id. created [] (record { handle = 0; own = all_methods; bridge = none });
}

abbrev pub alice : RemoteParty
alice = record { handle = "+15551234"; display_name = none }

abbrev pub connected_bridge : BridgeState
connected_bridge = record {
  connection_state = "connected";
  last_error = none;
  hello = none;
  last_status = none;
}

abbrev pub ringing_call : CallStartEvent
ringing_call = record {
  call_id = "call_000001";
  direction = inbound;
  state = ringing;
  remote = alice;
  sent_at = "now";
  requested_by_command_id = none;
}

-- The state in which the call is active, with a session, at place 0 of the store.
abbrev pub busy : State
busy =
    add_call "call_000001"
      (record (new_call calm ringing_call active none) {
        session = some (record { handle = 0; own = all_methods; bridge = none });
      })
      (initial connected_bridge)
