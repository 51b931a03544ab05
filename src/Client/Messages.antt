-- ===== src/Client/Messages.antt =====
-- plugin/src/bridge-client.ts: the handlers of a transport's messages and errors.
use Prim.Native.String.{◌++◌}
use openclaw_sip_voice.Base.{Bool, true, false, String, Option, none, some, if◌then◌else◌, ◌==◌}
use openclaw_sip_voice.Protocol.Value.{Value, str, obj, get, has_own}
use openclaw_sip_voice.Protocol.Messages.{
  ValidationCode, unsupported_protocol_version, validation_failed, Outcome, returned, threw, Thrown,
  invalid, type_error,
}
use openclaw_sip_voice.Protocol.Parse.{parse_bridge_event}
use openclaw_sip_voice.Client.State.{
  Failure, protocol, failure, Raised, event_emitted, ClientEnv, Client, to_error, output,
  emit_state,
}
use openclaw_sip_voice.Client.Connection.{settle_pending_connect, close_transport}

-- readTransportMessageData
unfoldable pub read_transport_message_data : Value → Value
read_transport_message_data (obj fs) = if has_own fs "data" then get "data" fs else obj fs
read_transport_message_data event = event

abbrev pub text_of : Value → String
text_of (str s) = s
text_of _ = ""

abbrev pub fields_get : String → Value → Value
fields_get key (obj fs) = get key fs
fields_get key v = v

-- bridgeErrorEventToError
unfoldable pub bridge_error_event_to_error : Value → Failure
bridge_error_event_to_error event =
    let error = fields_get "error" event in
    failure ("SipVoiceBridgeError:" ++ text_of (fields_get "code" error))
      (text_of (fields_get "message" error))

-- applyBridgeEvent, of an event with this type
unfoldable pub apply_typed : String → Value → Client → Client
unfolding emit_state bridge_error_event_to_error
apply_typed type event c =
    if type == "hello"
    then emit_state (record c { hello = some event })
    else if type == "status"
    then emit_state (record c { last_status = some event })
    else if type == "error"
    then emit_state (record c { last_error = some (bridge_error_event_to_error event) })
    else c

unfoldable pub apply_bridge_event : Value → Client → Client
unfolding apply_typed
apply_bridge_event event c = apply_typed (text_of (fields_get "type" event)) event c

-- What the parser throws is an Error.
abbrev pub failure_of : Thrown → Failure
failure_of (invalid e) = protocol e
failure_of type_error = failure "TypeError" "spec.required is not iterable"

-- normalized instanceof ProtocolValidationError && normalized.code === …
abbrev pub is_unsupported : ValidationCode → Bool
is_unsupported unsupported_protocol_version = true
is_unsupported validation_failed = false

unfoldable pub closes_connection : Failure → Bool
closes_connection (protocol e) = is_unsupported e.code
closes_connection (failure name message) = false

module _ (env : ClientEnv) where
  -- The `catch` of handleTransportMessage.
  unfoldable pub message_failed : Failure → Client → Client
  unfolding emit_state closes_connection
  message_failed error c =
      let c' = emit_state (record c { last_error = some error }) in
      if closes_connection error
      then (close_transport env 1002 "unsupported protocol version" c').1
      else c'

  -- After emitEvent; an event listener may throw.
  unfoldable pub listened : Option Raised → Client → Client
  listened none c = c
  listened (some raised) c = message_failed (to_error raised "Invalid SIP voice bridge event") c

  unfoldable pub emit_event : Value → Client → Client
  unfolding listened
  emit_event event c = listened (env.listen c.outputs event) (output (event_emitted event) c)

  unfoldable pub heard : Outcome → Client → Client
  unfolding emit_event message_failed
  heard (returned event) c = emit_event event (apply_bridge_event event c)
  heard (threw thrown) c = message_failed (failure_of thrown) c

  -- handleTransportMessage
  unfoldable pub handle_transport_message : Value → Client → Client
  unfolding heard
  handle_transport_message event c =
      heard (parse_bridge_event env.date_parses env.json_parse (read_transport_message_data event))
        c

-- handleTransportError
unfoldable pub handle_transport_error : Raised → Client → Client
unfolding settle_pending_connect emit_state
handle_transport_error event c =
    let error = to_error event "SIP voice bridge transport error" in
    emit_state (settle_pending_connect (some error) (record c { last_error = some error }))
