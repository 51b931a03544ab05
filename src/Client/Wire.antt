-- ===== src/Client/Wire.antt =====
-- plugin/src/bridge-client.ts: what a client puts on the wire and what its event listeners get.
pub mod History
use openclaw_sip_voice.Base.{
  ℕ, ◌≡◌, refl, ap, sym, ◌∙◌, subst, Bool, true, false, String, List, [], ◌∷◌, Option, none, some,
  if_cases, arith,
}
use openclaw_sip_voice.Protocol.Value.{Value, Number, Fields, obj, Message}
use openclaw_sip_voice.Protocol.Messages.{
  Result, valid, failed, throws, Outcome, returned, threw, restrict, assert_valid,
  validate_protocol_message, validate_bridge_event, validate_plugin_command,
  assert_valid_bridge_event, assert_valid_plugin_command,
}
use openclaw_sip_voice.Protocol.Messages.Validity.{IsMessage, validate_protocol_message_iff}
use openclaw_sip_voice.Protocol.Parse.{then_assert, parse_json_message, parse_bridge_event}
use openclaw_sip_voice.Protocol.Parse.Parsed.{assert_valid-eq-returned}
use openclaw_sip_voice.Protocol.Builders.{
  CommandOptions, Fallbacks, audio_of, send_audio, build_status_get, build_call_answer,
  build_call_dial, build_audio_out, build_audio_clear, build_call_hangup,
}
use openclaw_sip_voice.Client.State.{
  ConnectionState, disconnected, connecting, connected, Failure, Raised, Output, state_emitted,
  event_emitted, command_sent, transport_closed, promise_settled, Made, made, not_made, Closing,
  ClientEnv, Client, new_client, emit_state, set_connection_state,
}
use openclaw_sip_voice.Client.Connection.{
  detach_listeners, settle, settle_pending_connect, finish_disconnected, handle_transport_open,
  handle_transport_close, closed, close_found, close_transport, disconnect, opened, connect_from,
  connect,
}
use openclaw_sip_voice.Client.Messages.{
  closes_connection, apply_bridge_event, message_failed, listened, emit_event, heard,
  handle_transport_message, handle_transport_error,
}
use openclaw_sip_voice.Client.Commands.{
  Request, send_status_get, send_call_answer, send_call_dial, send_audio_out, send_audio_clear,
  send_call_hangup, build, sent, send_on, send_command, request,
}
use openclaw_sip_voice.Client.Steps.{
  Step, Reach, connects, disconnects, requests, runs_microtask, opens, hears, fails, closes, here,
  next,
}

-- Each event that the listeners get is a bridge event, and each value that is sent is a command.
abbrev pub IsSound : (String → Bool) → List Output → Type 0
IsSound date_parses [] = Unit
IsSound date_parses (event_emitted v ∷ os) =
    (validate_bridge_event date_parses v ≡ valid v) × IsSound date_parses os
IsSound date_parses (command_sent t v ∷ os) =
    (validate_plugin_command date_parses v ≡ valid v) × IsSound date_parses os
IsSound date_parses (_ ∷ os) = IsSound date_parses os

restrict-eq-valid :
    (types : List String) (refusal : String → Message) (r : Result) (w : Value)
    → restrict types refusal r ≡ valid w
    → r ≡ valid w
unfolding restrict
restrict-eq-valid types refusal (valid v) w e = ground arith
restrict-eq-valid types refusal (failed error errors) w e = cc (e)
restrict-eq-valid types refusal throws w e = cc (e)

module _ (date_parses : String → Bool) where
  same_value : (v w : Value) → validate_protocol_message date_parses v ≡ valid w → v ≡ w
  same_value v w e =
      let (fs, from, same, m) = (validate_protocol_message_iff date_parses v w).0 e in sym same

  asserted_command :
      (v w : Value)
      → assert_valid_plugin_command date_parses v ≡ returned w
      → validate_plugin_command date_parses w ≡ valid w
  unfolding assert_valid_plugin_command validate_plugin_command
  asserted_command v w e =
      let accepted = assert_valid-eq-returned (validate_plugin_command date_parses v) w e in
      subst (λ u. validate_plugin_command date_parses u ≡ valid w)
        (same_value v w (restrict-eq-valid _ _ _ w accepted)) accepted

  asserted_event :
      (v w : Value)
      → assert_valid_bridge_event date_parses v ≡ returned w
      → validate_bridge_event date_parses w ≡ valid w
  unfolding assert_valid_bridge_event validate_bridge_event
  asserted_event v w e =
      let accepted = assert_valid-eq-returned (validate_bridge_event date_parses v) w e in
      subst (λ u. validate_bridge_event date_parses u ≡ valid w)
        (same_value v w (restrict-eq-valid _ _ _ w accepted)) accepted

module _ (env : ClientEnv) where
  pub parsed_event :
      (o : Outcome) (w : Value)
      → then_assert (assert_valid_bridge_event env.date_parses) o ≡ returned w
      → validate_bridge_event env.date_parses w ≡ valid w
  parsed_event (returned v) w e = asserted_event env.date_parses v w e
  parsed_event (threw error) w e = absurd (cc (e))

  sent_audio :
      (fallbacks : Fallbacks) (options : CommandOptions) (id : String) (sequence : Number)
      (audio : Outcome) (w : Value)
      → send_audio env.date_parses fallbacks options id sequence audio ≡ returned w
      → validate_plugin_command env.date_parses w ≡ valid w
  sent_audio fallbacks options id sequence (returned audio) w e =
      asserted_command env.date_parses _ w e
  sent_audio fallbacks options id sequence (threw error) w e = absurd (cc (e))

  pub built_command :
      (fallbacks : Fallbacks) (r : Request) (w : Value)
      → build env fallbacks r ≡ returned w
      → validate_plugin_command env.date_parses w ≡ valid w
  unfolding build build_status_get build_call_answer build_call_dial build_audio_out
      build_audio_clear build_call_hangup
  built_command fallbacks (send_status_get options) w e = asserted_command env.date_parses _ w e
  built_command fallbacks (send_call_answer options id) w e = asserted_command env.date_parses _ w e
  built_command fallbacks (send_call_dial options remote audio) w e =
      asserted_command env.date_parses _ w e
  built_command fallbacks (send_audio_out options id sequence audio payload) w e =
      sent_audio fallbacks options id sequence (audio_of audio payload) w e
  built_command fallbacks (send_audio_clear options id reason) w e =
      asserted_command env.date_parses _ w e
  built_command fallbacks (send_call_hangup options id reason) w e =
      asserted_command env.date_parses _ w e

  unfoldable pub Sound : Client → Type 0
  Sound c = IsSound env.date_parses c.outputs

  pub finish_disconnected-Sound :
      (error : Option Failure) (c : Client) → Sound c → Sound (finish_disconnected error c)
  unfolding finish_disconnected Sound
  finish_disconnected-Sound error c v = ground arith

  pub handle_transport_open-Sound : (c : Client) → Sound c → Sound (handle_transport_open c)
  unfolding handle_transport_open Sound
  handle_transport_open-Sound c v = ground arith

  pub handle_transport_error-Sound :
      (event : Raised) (c : Client) → Sound c → Sound (handle_transport_error event c)
  unfolding handle_transport_error Sound
  handle_transport_error-Sound event c v = ground arith

  pub apply_bridge_event-Sound :
      (event : Value) (c : Client) → Sound c → Sound (apply_bridge_event event c)
  unfolding apply_bridge_event Sound
  apply_bridge_event-Sound event c v = ground arith
