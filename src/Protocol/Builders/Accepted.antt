-- ===== src/Protocol/Builders/Accepted.antt =====
-- plugin/src/protocol.ts: what each builder of a command accepts.
use openclaw_sip_voice.Base.{
  ◌≡◌, ◌⊎◌, Bool, true, false, ◌&&◌, String, List, [], ◌∷◌, Option, none, some, arith, eqb,
}
use openclaw_sip_voice.Protocol.Value.{Number, num, str, obj, Fields, end, field, get, has_own}
use openclaw_sip_voice.Protocol.Pattern.{
  codes, call_id_re, command_id_re, remote_handle_re, units, between, base64_re, decoded_length,
  forbidden_field_name_re, occurs_one_of, occurs, strip_prefix, to_lower, is_upper,
}
use openclaw_sip_voice.Protocol.Validators.{
  includes, find_validator, missing_keys, check_fields, validate_exact_object, is_literal, literal,
  is_one_of, enum_value, matches, pattern_string, timestamp, includes_t, exact_object,
  bounded_string, integer_at_least, is_integer_from, base64_audio_payload,
}
use openclaw_sip_voice.Protocol.Specs.Parts.{
  call_id, command_id, audio_format_spec, audio_frame_spec, remote_party_spec,
}
use openclaw_sip_voice.Protocol.Specs.Commands.{
  find_spec, message_specs, command_spec, call_answer_spec, call_hangup_spec, status_get_spec,
  audio_clear_spec, call_dial_spec, audio_out_spec,
}
use openclaw_sip_voice.Protocol.Messages.{
  validate_protocol_message, validate_object, validate_typed, validate_as, conclude,
  validation_failure, create_validation_error, early_issues, foreign_version,
  collect_forbidden_field_names, restrict, is_type_in, validate_plugin_command, assert_valid,
  assert_valid_plugin_command, Outcome, returned, threw, invalid, validation_failed,
}
use openclaw_sip_voice.Protocol.Builders.{
  CommandOptions, Fallbacks, or_else, command_envelope, build_status_get, build_call_answer,
  build_call_hangup, build_audio_clear, build_call_dial, remote_value, sip_voice_audio_format,
  RemoteParty, optional_field, Payload, payload_text, audio_frame, audio_of, build_audio_frame,
  build_audio_out,
}

-- A name for all that the validation of a command computes with.
unfoldable pub validation : Unit {0}
unfolding validate_protocol_message validate_object validate_typed validate_as conclude
    validation_failure early_issues foreign_version collect_forbidden_field_names restrict
    is_type_in validate_plugin_command assert_valid assert_valid_plugin_command get has_own includes
    find_validator missing_keys check_fields validate_exact_object is_literal literal is_one_of
    enum_value matches pattern_string timestamp call_id command_id find_spec message_specs
    command_spec call_answer_spec call_hangup_spec status_get_spec audio_clear_spec
    forbidden_field_name_re occurs_one_of occurs strip_prefix to_lower is_upper command_envelope
    create_validation_error call_dial_spec audio_out_spec exact_object audio_format_spec
    audio_frame_spec remote_party_spec bounded_string integer_at_least is_integer_from remote_value
    sip_voice_audio_format
validation = tt

-- The builder's outcome: the command if the options are accepted, and otherwise a validation error.
abbrev pub IsRejected : Outcome → Type 0
IsRejected (threw (invalid e)) = e.code ≡ validation_failed
IsRejected _ = ⊥

abbrev pub Builds : Bool → Fields → Outcome → Type 0
Builds accepted command outcome =
    ((accepted ≡ true) × (outcome ≡ returned (obj command)))
    ⊎ ((accepted ≡ false) × IsRejected outcome)

abbrev pub reason_in : List String → Option String → Bool
reason_in reasons none = true
reason_in reasons (some reason) = includes reasons reason

module _ (date_parses : String → Bool) (fallbacks : Fallbacks) where
  -- The time and the id of a command, as the envelope takes them.
  abbrev pub envelope_ok : CommandOptions → Bool
  envelope_ok options =
      (date_parses (or_else options.sent_at fallbacks.now)
        && includes_t (codes (or_else options.sent_at fallbacks.now)))
      && command_id_re (or_else options.command_id fallbacks.new_command_id)

  -- A `status.get` needs a time and a command id.
  pub build_status_get-Builds :
      (options : CommandOptions)
      → Builds
          (envelope_ok options)
          (command_envelope "status.get" options fallbacks end)
          (build_status_get date_parses fallbacks options)
  unfolding validation build_status_get
  build_status_get-Builds options = ground arith

  -- A `call.answer` needs a call id too.
  pub build_call_answer-Builds :
      (options : CommandOptions) (call : String)
      → Builds
          (envelope_ok options && call_id_re call)
          (command_envelope "call.answer" options fallbacks (field "callId" (str call) end))
          (build_call_answer date_parses fallbacks options call)
  unfolding validation build_call_answer
  build_call_answer-Builds options call = ground arith

  -- A `call.hangup` takes a reason out of three, or none.
  pub build_call_hangup-Builds :
      (options : CommandOptions) (call : String) (reason : Option String)
      → Builds
          (envelope_ok options
            && call_id_re call
            && reason_in ("user_request" ∷ "completed" ∷ "failed" ∷ []) reason)
          (command_envelope "call.hangup" options fallbacks
            (field "callId" (str call) (optional_field "reason" reason end)))
          (build_call_hangup date_parses fallbacks options call reason)
  unfolding validation build_call_hangup
  build_call_hangup-Builds options call none = ground arith
  build_call_hangup-Builds options call (some reason) = ground arith

  -- An `audio.clear` takes a reason out of three, or none.
  pub build_audio_clear-Builds :
      (options : CommandOptions) (call : String) (reason : Option String)
      → Builds
          (envelope_ok options
            && call_id_re call
            && reason_in ("barge_in" ∷ "user_request" ∷ "call_ending" ∷ []) reason)
          (command_envelope "audio.clear" options fallbacks (
            field "callId"
              (str call)
              (field "scope" (str "queued") (optional_field "reason" reason end))))
          (build_audio_clear date_parses fallbacks options call reason)
  unfolding validation build_audio_clear
  build_audio_clear-Builds options call none = ground arith
  build_audio_clear-Builds options call (some reason) = ground arith

  abbrev pub remote_ok : RemoteParty → Bool
  remote_ok remote =
      remote_handle_re remote.handle
      && elim remote.display_name [ none ↦ true | some name ↦ between 1 80 (units name) ]

  call_dial_named :
      (options : CommandOptions) (handle : String) (name : Option String)
      → let remote : RemoteParty = record { handle = handle; display_name = name } in
        Builds
          (envelope_ok options && remote_ok remote)
          (command_envelope "call.dial" options fallbacks
            (field "remote" (remote_value remote) (field "audio" sip_voice_audio_format end)))
          (build_call_dial date_parses fallbacks options remote none)
  unfolding validation build_call_dial
  call_dial_named options handle none = ground arith
  call_dial_named options handle (some name) = ground arith

  -- Without `options.audio`, a `call.dial` has the plugin's audio format, and needs a remote handle,
  -- and a display name of 1 to 80 code units, if there is one.
  pub build_call_dial-Builds :
      (options : CommandOptions) (remote : RemoteParty)
      → Builds
          (envelope_ok options && remote_ok remote)
          (command_envelope "call.dial" options fallbacks
            (field "remote" (remote_value remote) (field "audio" sip_voice_audio_format end)))
          (build_call_dial date_parses fallbacks options remote none)
  build_call_dial-Builds options remote = call_dial_named options remote.handle remote.display_name

  abbrev pub payload_ok : String → Bool
  payload_ok s = eqb (units s) 216 && base64_re (codes s) && eqb (decoded_length (codes s)) 160

  -- An `audio.out` with a payload needs a sequence number, an integer from 0, and a payload that is
  -- strict base64, of 216 characters and 160 bytes.
  pub build_audio_out-Builds :
      (options : CommandOptions) (call : String) (sequence : Number) (payload : Payload)
      → Builds
          (envelope_ok options
            && call_id_re call
            && is_integer_from 0 (num sequence)
            && payload_ok (payload_text payload))
          (command_envelope "audio.out" options fallbacks (
            field "callId"
              (str call)
              (field "sequence" (num sequence) (field "audio" (audio_frame payload) end))))
          (build_audio_out date_parses fallbacks options call sequence none (some payload))
  unfolding validation build_audio_out audio_of build_audio_frame audio_frame base64_audio_payload
  build_audio_out-Builds options call sequence payload = ground arith
