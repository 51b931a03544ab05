-- ===== src/Fixtures/Commands.antt =====
-- protocol/validator.mjs, MESSAGE_SPECS: the commands of the plugin, and the table of all messages.
use openclaw_sip_voice.Base.{String, List, [], ◌∷◌, ◌++◌, Bool}
use openclaw_sip_voice.Protocol.Value.{text}
use openclaw_sip_voice.Protocol.Validators.{
  Validator, ObjectSpec, no_after, literal, enum_value, exact_object, integer_at_least,
}
use openclaw_sip_voice.Fixtures.Parts.{
  audio_format_spec, audio_frame_spec, call_id, command_id, remote_party_spec, envelope,
}
use openclaw_sip_voice.Protocol.Specs.Commands.{SpecLookup, find_in}
use openclaw_sip_voice.Fixtures.Events.{
  hello_spec, status_spec, call_start_spec, audio_in_spec, call_end_spec, error_spec,
}

module _ (date_parses : String → Bool) where
  -- commandSpec
  unfoldable pub command_spec :
      String → List (String × Validator) → List String → List String → ObjectSpec
  command_spec type properties required optional = record {
    required = "protocolVersion" ∷ "type" ∷ "sentAt" ∷ "commandId" ∷ required;
    optional = optional;
    properties = envelope date_parses type ++ ("commandId", command_id) ∷ properties;
    after = no_after;
  }

  unfoldable pub status_get_spec : ObjectSpec
  unfolding command_spec
  status_get_spec = command_spec "status.get" [] [] []

  unfoldable pub call_answer_spec : ObjectSpec
  unfolding command_spec
  call_answer_spec = command_spec "call.answer" (("callId", call_id) ∷ []) ("callId" ∷ []) []

  unfoldable pub call_dial_spec : ObjectSpec
  unfolding command_spec
  call_dial_spec =
      command_spec "call.dial"
        (("remote", exact_object remote_party_spec)
          ∷ ("audio", exact_object audio_format_spec)
          ∷ [])
        ("remote" ∷ "audio" ∷ []) []

  unfoldable pub audio_out_spec : ObjectSpec
  unfolding command_spec
  audio_out_spec =
      command_spec "audio.out"
        (("callId", call_id)
          ∷ ("sequence", integer_at_least 0)
          ∷ ("audio", exact_object audio_frame_spec)
          ∷ [])
        ("callId" ∷ "sequence" ∷ "audio" ∷ []) []

  unfoldable pub audio_clear_spec : ObjectSpec
  unfolding command_spec
  audio_clear_spec =
      command_spec "audio.clear"
        (("callId", call_id)
          ∷ ("scope", literal (text "queued"))
          ∷ ("reason", enum_value ("barge_in" ∷ "user_request" ∷ "call_ending" ∷ []))
          ∷ [])
        ("callId" ∷ "scope" ∷ []) ("reason" ∷ [])

  unfoldable pub call_hangup_spec : ObjectSpec
  unfolding command_spec
  call_hangup_spec =
      command_spec "call.hangup"
        (("callId", call_id)
          ∷ ("reason", enum_value ("user_request" ∷ "completed" ∷ "failed" ∷ []))
          ∷ [])
        ("callId" ∷ []) ("reason" ∷ [])

  -- MESSAGE_SPECS
  unfoldable pub message_specs : List (String × ObjectSpec)
  message_specs =
      ("hello", hello_spec date_parses)
      ∷ ("status", status_spec date_parses)
      ∷ ("call.start", call_start_spec date_parses)
      ∷ ("audio.in", audio_in_spec date_parses)
      ∷ ("call.end", call_end_spec date_parses)
      ∷ ("error", error_spec date_parses)
      ∷ ("status.get", status_get_spec)
      ∷ ("call.answer", call_answer_spec)
      ∷ ("call.dial", call_dial_spec)
      ∷ ("audio.out", audio_out_spec)
      ∷ ("audio.clear", audio_clear_spec)
      ∷ ("call.hangup", call_hangup_spec)
      ∷ []

  -- MESSAGE_SPECS[type]
  unfoldable pub find_spec : String → SpecLookup
  find_spec type = find_in type message_specs
