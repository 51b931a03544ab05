-- ===== src/Protocol/Specs/Parts.antt =====
-- plugin/src/protocol.ts: the specs of the objects inside of messages.
use openclaw_sip_voice.Base.{String, List, [], ◌∷◌, ◌++◌, Bool}
use openclaw_sip_voice.Protocol.Value.{text, number}
use openclaw_sip_voice.Protocol.Pattern.{
  call_id_re, command_id_re, remote_handle_re, reason_code_re,
}
use openclaw_sip_voice.Protocol.Validators.{
  Validator, ObjectSpec, no_after, literal, pattern_string, bounded_string, enum_value,
  boolean_value, timestamp, base64_audio_payload, protocol_version,
}

abbrev pub default_bridge_url : String
default_bridge_url = "ws://127.0.0.1:9077"

-- AUDIO_FORMAT_SPEC
unfoldable pub audio_format_spec : ObjectSpec
audio_format_spec = record {
  required = "format" ∷ "sampleRateHz" ∷ "channels" ∷ "frameDurationMs" ∷ "payloadEncoding" ∷ [];
  optional = [];
  properties =
      ("format", literal (text "g711_ulaw"))
      ∷ ("sampleRateHz", literal (number 8000))
      ∷ ("channels", literal (number 1))
      ∷ ("frameDurationMs", literal (number 20))
      ∷ ("payloadEncoding", literal (text "base64"))
      ∷ [];
  after = no_after;
}

-- AUDIO_FRAME_SPEC
unfoldable pub audio_frame_spec : ObjectSpec
audio_frame_spec = record {
  required = audio_format_spec.required ++ "payload" ∷ [];
  optional = [];
  properties = audio_format_spec.properties ++ ("payload", base64_audio_payload) ∷ [];
  after = no_after;
}

unfoldable pub call_id : Validator
call_id = pattern_string call_id_re "call id"

unfoldable pub command_id : Validator
command_id = pattern_string command_id_re "command id"

unfoldable pub reason_code : Validator
reason_code = pattern_string reason_code_re "reason code"

-- callSummary
unfoldable pub call_summary_spec : ObjectSpec
call_summary_spec = record {
  required = "callId" ∷ "direction" ∷ "state" ∷ [];
  optional = [];
  properties =
      ("callId", call_id)
      ∷ ("direction", enum_value ("inbound" ∷ "outbound" ∷ []))
      ∷ ("state", enum_value ("ringing" ∷ "dialing" ∷ "active" ∷ "ending" ∷ []))
      ∷ [];
  after = no_after;
}

-- remoteParty
unfoldable pub remote_party_spec : ObjectSpec
remote_party_spec = record {
  required = "handle" ∷ [];
  optional = "displayName" ∷ [];
  properties =
      ("handle", pattern_string remote_handle_re "remote handle")
      ∷ ("displayName", bounded_string 1 80)
      ∷ [];
  after = no_after;
}

-- The `transport` of `hello`.
unfoldable pub transport_spec : ObjectSpec
transport_spec = record {
  required = "kind" ∷ "defaultUrl" ∷ [];
  optional = [];
  properties =
      ("kind", literal (text "websocket")) ∷ ("defaultUrl", literal (text default_bridge_url)) ∷ [];
  after = no_after;
}

-- The `capabilities` of `hello`.
unfoldable pub capabilities_spec : ObjectSpec
capabilities_spec = record {
  required = "inboundCalls" ∷ "outboundCalls" ∷ "bargeIn" ∷ "clearQueuedAudio" ∷ [];
  optional = [];
  properties =
      ("inboundCalls", boolean_value)
      ∷ ("outboundCalls", boolean_value)
      ∷ ("bargeIn", boolean_value)
      ∷ ("clearQueuedAudio", boolean_value)
      ∷ [];
  after = no_after;
}

-- The `registration` of `status`.
unfoldable pub registration_spec : ObjectSpec
registration_spec = record {
  required = "state" ∷ [];
  optional = "label" ∷ "reasonCode" ∷ "message" ∷ [];
  properties =
      ("state", enum_value ("registered" ∷ "unregistered" ∷ "registering" ∷ "error" ∷ []))
      ∷ ("label", bounded_string 1 80)
      ∷ ("reasonCode", reason_code)
      ∷ ("message", bounded_string 1 160)
      ∷ [];
  after = no_after;
}

-- The `reason` of `call.end`.
unfoldable pub end_reason_spec : ObjectSpec
end_reason_spec = record {
  required = "code" ∷ [];
  optional = "message" ∷ [];
  properties = ("code", reason_code) ∷ ("message", bounded_string 1 160) ∷ [];
  after = no_after;
}

-- The four properties that every message has, by its type.
abbrev pub envelope : (String → Bool) → String → List (String × Validator)
envelope date_parses type =
    ("protocolVersion", literal (text protocol_version))
    ∷ ("type", literal (text type))
    ∷ ("sentAt", timestamp date_parses)
    ∷ []
