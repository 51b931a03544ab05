-- ===== src/Protocol/Specs/Commands.antt =====
-- plugin/src/protocol.ts, MESSAGE_SPECS: the commands of the plugin, and the lookup of a spec.
use openclaw_sip_voice.Base.{String, List, [], ◌∷◌, ◌++◌, Bool, ◌==◌, if◌then◌else◌}
use openclaw_sip_voice.Protocol.Value.{text}
use openclaw_sip_voice.Protocol.Validators.{
  Validator, ObjectSpec, no_after, literal, enum_value, exact_object, integer_at_least, includes,
}
use openclaw_sip_voice.Protocol.Specs.Parts.{
  audio_format_spec, audio_frame_spec, call_id, command_id, remote_party_spec, envelope,
}
use openclaw_sip_voice.Protocol.Specs.Events.{
  hello_spec, status_spec, call_start_spec, audio_in_spec, call_end_spec, error_spec,
}

-- What `MESSAGE_SPECS[type]` finds. The table is an object literal, so a name that every object
-- inherits finds something too, which is no spec.
pub data SpecLookup : Type 0 where
  own : ObjectSpec → SpecLookup
  inherited missing : SpecLookup

-- The properties of Object.prototype.
abbrev pub inherited_names : List String
inherited_names =
    "constructor" ∷ "__defineGetter__" ∷ "__defineSetter__" ∷ "hasOwnProperty" ∷ "__lookupGetter__"
    ∷ "__lookupSetter__" ∷ "isPrototypeOf" ∷ "propertyIsEnumerable" ∷ "toString" ∷ "valueOf"
    ∷ "__proto__" ∷ "toLocaleString" ∷ []

-- BRIDGE_EVENT_TYPES
abbrev pub bridge_event_types : List String
bridge_event_types = "hello" ∷ "status" ∷ "call.start" ∷ "audio.in" ∷ "call.end" ∷ "error" ∷ []

-- PLUGIN_COMMAND_TYPES
abbrev pub plugin_command_types : List String
plugin_command_types =
    "status.get" ∷ "call.answer" ∷ "call.dial" ∷ "audio.out" ∷ "audio.clear" ∷ "call.hangup" ∷ []

abbrev pub find_in : String → List (String × ObjectSpec) → SpecLookup
find_in type [] = if includes inherited_names type then inherited else missing
find_in type ((t, spec) ∷ specs) = if t == type then own spec else find_in type specs

module _ (date_parses : String → Bool) where
  -- commandSpec
  unfoldable pub command_spec :
      String → List (String × Validator) → List String → List String → ObjectSpec
  command_spec type properties required optional = record {
    required = "protocolVersion" ∷ "type" ∷ "sentAt" ∷ "commandId" ∷ required;
    optional = optional;
    properties = envelope date_parses type ++ ("commandId", command_id) ∷ properties;
    after = no_after;
  }

  unfoldable pub status_get_spec : ObjectSpec
  unfolding command_spec
  status_get_spec = command_spec "status.get" [] [] []

  unfoldable pub call_answer_spec : ObjectSpec
  unfolding command_spec
  call_answer_spec = command_spec "call.answer" (("callId", call_id) ∷ []) ("callId" ∷ []) []

  unfoldable pub call_dial_spec : ObjectSpec
  unfolding command_spec
  call_dial_spec =
      command_spec "call.dial"
        (("remote", exact_object remote_party_spec)
          ∷ ("audio", exact_object audio_format_spec)
          ∷ [])
        ("remote" ∷ "audio" ∷ []) []

  unfoldable pub audio_out_spec : ObjectSpec
  unfolding command_spec
  audio_out_spec =
      command_spec "audio.out"
        (("callId", call_id)
          ∷ ("sequence", integer_at_least 0)
          ∷ ("audio", exact_object audio_frame_spec)
          ∷ [])
        ("callId" ∷ "sequence" ∷ "audio" ∷ []) []

  unfoldable pub audio_clear_spec : ObjectSpec
  unfolding command_spec
  audio_clear_spec =
      command_spec "audio.clear"
        (("callId", call_id)
          ∷ ("scope", literal (text "queued"))
          ∷ ("reason", enum_value ("barge_in" ∷ "user_request" ∷ "call_ending" ∷ []))
          ∷ [])
        ("callId" ∷ "scope" ∷ []) ("reason" ∷ [])

  unfoldable pub call_hangup_spec : ObjectSpec
  unfolding command_spec
  call_hangup_spec =
      command_spec "call.hangup"
        (("callId", call_id)
          ∷ ("reason", enum_value ("user_request" ∷ "completed" ∷ "failed" ∷ []))
          ∷ [])
        ("callId" ∷ []) ("reason" ∷ [])

  -- MESSAGE_SPECS
  unfoldable pub message_specs : List (String × ObjectSpec)
  message_specs =
      ("hello", hello_spec date_parses)
      ∷ ("status", status_spec date_parses)
      ∷ ("call.start", call_start_spec date_parses)
      ∷ ("audio.in", audio_in_spec date_parses)
      ∷ ("call.end", call_end_spec date_parses)
      ∷ ("error", error_spec date_parses)
      ∷ ("status.get", status_get_spec)
      ∷ ("call.answer", call_answer_spec)
      ∷ ("call.dial", call_dial_spec)
      ∷ ("audio.out", audio_out_spec)
      ∷ ("audio.clear", audio_clear_spec)
      ∷ ("call.hangup", call_hangup_spec)
      ∷ []

  -- MESSAGE_SPECS[type]
  unfoldable pub find_spec : String → SpecLookup
  find_spec type = find_in type message_specs
