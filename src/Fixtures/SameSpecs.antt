-- ===== src/Fixtures/SameSpecs.antt =====
-- The specs of protocol/validator.mjs beside those of plugin/src/protocol.ts.
use openclaw_sip_voice.Base.{◌≡◌, refl, ◌↔◌, Bool, String, [], ◌∷◌, ◌++◌}
use openclaw_sip_voice.Protocol.Value.{obj, Fields, root}
use openclaw_sip_voice.Protocol.Validators.{
  ObjectSpec, integer_at_least, exact_object, validate_exact_object,
}
use openclaw_sip_voice.Protocol.Specs.Parts as Pa
use openclaw_sip_voice.Protocol.Specs.Events as Ev
use openclaw_sip_voice.Protocol.Specs.Commands as Co
use openclaw_sip_voice.Protocol.Specs.Parts.{
  call_id as plugin_call_id, command_id as plugin_command_id, audio_frame_spec as plugin_frame_spec,
  audio_format_spec as plugin_format_spec,
}
use openclaw_sip_voice.Protocol.Specs.Events.{audio_in_spec as plugin_audio_in_spec}
use openclaw_sip_voice.Protocol.Specs.Commands.{
  command_spec as plugin_command_spec, audio_out_spec as plugin_audio_out_spec,
}
use openclaw_sip_voice.Fixtures.Alike.{Alike-but_last, SpecsAlike, exact_object-Alike}
use openclaw_sip_voice.Fixtures.Payload.{audio_payload-Alike}
use openclaw_sip_voice.Fixtures.Parts.{
  audio_frame_spec, audio_format_spec, envelope, call_id, command_id, reason_code,
  call_summary_spec, remote_party_spec, transport_spec, capabilities_spec, registration_spec,
  end_reason_spec,
}
use openclaw_sip_voice.Fixtures.Events.{
  hello_spec, status_spec, call_start_spec, audio_in_spec, call_end_spec, call_end_after,
}
use openclaw_sip_voice.Fixtures.Commands.{
  status_get_spec, call_answer_spec, call_dial_spec, audio_out_spec, audio_clear_spec,
  call_hangup_spec, command_spec,
}

frame_specs : SpecsAlike plugin_frame_spec audio_frame_spec
unfolding plugin_frame_spec audio_frame_spec plugin_format_spec audio_format_spec
frame_specs = record {
  same_required = refl;
  same_optional = refl;
  properties_alike = Alike-but_last audio_format_spec.properties "payload" _ _ audio_payload-Alike;
  afters_alike = λ fs at. (λ e. e, λ e. e);
}

-- What two specs find in an object.
abbrev pub Same : Fields → ObjectSpec → ObjectSpec → Type 0
Same fs s t =
    (validate_exact_object s (obj fs) root ≡ []) ↔ (validate_exact_object t (obj fs) root ≡ [])

pub Same-of_eq : (fs : Fields) {s t : ObjectSpec} → s ≡ t → Same fs s t
Same-of_eq fs e = rw e (λ h. h, λ h. h)

module _ (date_parses : String → Bool) where
  pub audio_in_specs : SpecsAlike (plugin_audio_in_spec date_parses) (audio_in_spec date_parses)
  unfolding plugin_audio_in_spec audio_in_spec plugin_call_id call_id
  audio_in_specs = record {
    same_required = refl;
    same_optional = refl;
    properties_alike =
        Alike-but_last
          (envelope date_parses "audio.in"
            ++ ("callId", call_id)
              ∷ ("sequence", integer_at_least 0)
              ∷ ("timestampMs", integer_at_least 0)
              ∷ [])
          "audio" (exact_object plugin_frame_spec) (exact_object audio_frame_spec)
          (exact_object-Alike _ _ frame_specs);
    afters_alike = λ fs at. (λ e. e, λ e. e);
  }

  pub audio_out_specs : SpecsAlike (plugin_audio_out_spec date_parses) (audio_out_spec date_parses)
  unfolding plugin_audio_out_spec audio_out_spec plugin_call_id call_id plugin_command_id command_id
      plugin_command_spec command_spec
  audio_out_specs = record {
    same_required = refl;
    same_optional = refl;
    properties_alike =
        Alike-but_last
          (envelope date_parses "audio.out"
            ++ ("commandId", command_id)
              ∷ ("callId", call_id)
              ∷ ("sequence", integer_at_least 0)
              ∷ [])
          "audio" (exact_object plugin_frame_spec) (exact_object audio_frame_spec)
          (exact_object-Alike _ _ frame_specs);
    afters_alike = λ fs at. (λ e. e, λ e. e);
  }

  -- The specs that are the same text.
  abbrev pub SameText : Type 0
  SameText =
      (Ev.hello_spec date_parses ≡ hello_spec date_parses)
      × (Ev.status_spec date_parses ≡ status_spec date_parses)
      × (Ev.call_start_spec date_parses ≡ call_start_spec date_parses)
      × (Ev.call_end_spec date_parses ≡ call_end_spec date_parses)
      × (Co.status_get_spec date_parses ≡ status_get_spec date_parses)
      × (Co.call_answer_spec date_parses ≡ call_answer_spec date_parses)
      × (Co.call_dial_spec date_parses ≡ call_dial_spec date_parses)
      × (Co.audio_clear_spec date_parses ≡ audio_clear_spec date_parses)
      × (Co.call_hangup_spec date_parses ≡ call_hangup_spec date_parses)

  pub same_text : SameText
  unfolding Ev.hello_spec hello_spec Ev.status_spec status_spec Ev.call_start_spec call_start_spec
      Ev.call_end_spec call_end_spec Ev.call_end_after call_end_after Co.status_get_spec
      status_get_spec Co.call_answer_spec call_answer_spec Co.call_dial_spec call_dial_spec
      Co.audio_clear_spec audio_clear_spec Co.call_hangup_spec call_hangup_spec plugin_command_spec
      command_spec plugin_call_id call_id plugin_command_id command_id Pa.reason_code reason_code
      plugin_format_spec audio_format_spec Pa.call_summary_spec call_summary_spec
      Pa.remote_party_spec remote_party_spec Pa.transport_spec transport_spec Pa.capabilities_spec
      capabilities_spec Pa.registration_spec registration_spec Pa.end_reason_spec end_reason_spec
  same_text = (refl, refl, refl, refl, refl, refl, refl, refl, refl)
