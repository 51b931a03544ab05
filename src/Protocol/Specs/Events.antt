-- ===== src/Protocol/Specs/Events.antt =====
-- plugin/src/protocol.ts, MESSAGE_SPECS: the events of the bridge.
use openclaw_sip_voice.Base.{
  String, List, [], ◌∷◌, ◌++◌, Bool, true, false, not, ◌&&◌, if◌then◌else◌,
}
use openclaw_sip_voice.Protocol.Value.{
  Value, bool, Fields, Place, Issue, key_of, text, get, has_own, as_record, reason_is_required,
  versions_are_required, must_be_fatal, must_not_be_retryable,
}
use openclaw_sip_voice.Protocol.Pattern.{bridge_id_re}
use openclaw_sip_voice.Protocol.Validators.{
  ObjectSpec, no_after, check, is_literal, pattern_string, bounded_string, enum_value,
  boolean_value, exact_object, array_of, integer_at_least, supported_protocol_versions,
}
use openclaw_sip_voice.Protocol.Specs.Parts.{
  audio_format_spec, audio_frame_spec, call_id, command_id, call_summary_spec, remote_party_spec,
  transport_spec, capabilities_spec, registration_spec, end_reason_spec, envelope,
}

abbrev reads : String → String → Fields → Bool
reads key expected fs = is_literal (text expected) (get key fs)

-- `after` of `call.end`.
unfoldable pub call_end_after : Fields → Place → List Issue
call_end_after fs at =
    check (not (reads "outcome" "error" fs && not (has_own fs "reason"))) (key_of at "reason")
      reason_is_required

-- `after` of the `error` inside of `error`.
unfoldable pub error_details_after : Fields → Place → List Issue
error_details_after fs at =
    if not (reads "code" "unsupported_protocol_version" fs)
    then []
    else check (has_own fs "expectedProtocolVersions") (key_of at "expectedProtocolVersions")
        versions_are_required

-- value === true and value === false
unfoldable pub is_bool : Bool → Value → Bool
is_bool true (bool b) = b
is_bool false (bool b) = not b
is_bool _ _ = false

-- `after` of `error`.
unfoldable pub error_after : Fields → Place → List Issue
error_after fs at =
    let details = as_record (get "error" fs) in
    if not (reads "code" "unsupported_protocol_version" details)
    then []
    else check (is_bool true (get "fatal" fs)) (key_of at "fatal") must_be_fatal
      ++ check (is_bool false (get "retryable" details)) (key_of (key_of at "error") "retryable")
          must_not_be_retryable

unfoldable pub error_details_spec : ObjectSpec
error_details_spec = record {
  required = "code" ∷ "message" ∷ "retryable" ∷ [];
  optional = "commandId" ∷ "callId" ∷ "expectedProtocolVersions" ∷ [];
  properties =
      (
        "code",
        enum_value (
            "unsupported_protocol_version" ∷ "validation_failed" ∷ "bridge_unavailable"
            ∷ "call_not_found" ∷ "call_rejected" ∷ "audio_underrun" ∷ "internal_error" ∷ []),
      )
      ∷ ("message", bounded_string 1 160)
      ∷ ("retryable", boolean_value)
      ∷ ("commandId", command_id)
      ∷ ("callId", call_id)
      ∷ ("expectedProtocolVersions", supported_protocol_versions)
      ∷ [];
  after = error_details_after;
}

module _ (date_parses : String → Bool) where
  unfoldable pub hello_spec : ObjectSpec
  hello_spec = record {
    required =
        "protocolVersion" ∷ "type" ∷ "sentAt" ∷ "bridgeId" ∷ "bridgeVersion" ∷ "transport"
        ∷ "supportedProtocolVersions" ∷ "audio" ∷ "capabilities" ∷ [];
    optional = [];
    properties =
        envelope date_parses "hello"
        ++ ("bridgeId", pattern_string bridge_id_re "bridge id")
          ∷ ("bridgeVersion", bounded_string 1 40)
          ∷ ("transport", exact_object transport_spec)
          ∷ ("supportedProtocolVersions", supported_protocol_versions)
          ∷ ("audio", exact_object audio_format_spec)
          ∷ ("capabilities", exact_object capabilities_spec)
          ∷ [];
    after = no_after;
  }

  unfoldable pub status_spec : ObjectSpec
  status_spec = record {
    required =
        "protocolVersion" ∷ "type" ∷ "sentAt" ∷ "bridgeState" ∷ "registration" ∷ "activeCalls" ∷ [];
    optional = [];
    properties =
        envelope date_parses "status"
        ++ ("bridgeState", enum_value ("starting" ∷ "ready" ∷ "degraded" ∷ "offline" ∷ []))
          ∷ ("registration", exact_object registration_spec)
          ∷ ("activeCalls", array_of (exact_object call_summary_spec) 16)
          ∷ [];
    after = no_after;
  }

  unfoldable pub call_start_spec : ObjectSpec
  call_start_spec = record {
    required =
        "protocolVersion" ∷ "type" ∷ "sentAt" ∷ "callId" ∷ "direction" ∷ "state" ∷ "remote"
        ∷ "audio" ∷ [];
    optional = "requestedByCommandId" ∷ [];
    properties =
        envelope date_parses "call.start"
        ++ ("callId", call_id)
          ∷ ("direction", enum_value ("inbound" ∷ "outbound" ∷ []))
          ∷ ("state", enum_value ("ringing" ∷ "dialing" ∷ "active" ∷ []))
          ∷ ("remote", exact_object remote_party_spec)
          ∷ ("audio", exact_object audio_format_spec)
          ∷ ("requestedByCommandId", command_id)
          ∷ [];
    after = no_after;
  }

  unfoldable pub audio_in_spec : ObjectSpec
  audio_in_spec = record {
    required =
        "protocolVersion" ∷ "type" ∷ "sentAt" ∷ "callId" ∷ "sequence" ∷ "timestampMs" ∷ "audio"
        ∷ [];
    optional = [];
    properties =
        envelope date_parses "audio.in"
        ++ ("callId", call_id)
          ∷ ("sequence", integer_at_least 0)
          ∷ ("timestampMs", integer_at_least 0)
          ∷ ("audio", exact_object audio_frame_spec)
          ∷ [];
    after = no_after;
  }

  unfoldable pub call_end_spec : ObjectSpec
  call_end_spec = record {
    required = "protocolVersion" ∷ "type" ∷ "sentAt" ∷ "callId" ∷ "outcome" ∷ [];
    optional = "durationMs" ∷ "reason" ∷ [];
    properties =
        envelope date_parses "call.end"
        ++ ("callId", call_id)
          ∷ (
            "outcome",
            enum_value ("completed" ∷ "error" ∷ "missed" ∷ "rejected" ∷ "canceled" ∷ []),
          )
          ∷ ("durationMs", integer_at_least 0)
          ∷ ("reason", exact_object end_reason_spec)
          ∷ [];
    after = call_end_after;
  }

  unfoldable pub error_spec : ObjectSpec
  error_spec = record {
    required = "protocolVersion" ∷ "type" ∷ "sentAt" ∷ "fatal" ∷ "error" ∷ [];
    optional = [];
    properties =
        envelope date_parses "error"
        ++ ("fatal", boolean_value) ∷ ("error", exact_object error_details_spec) ∷ [];
    after = error_after;
  }
