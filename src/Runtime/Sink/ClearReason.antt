-- ===== src/Runtime/Sink/ClearReason.antt =====
-- plugin/src/runtime.ts, audioClearReasonFromValue and closeSession: the reasons that they give for
-- audio.clear, held against the protocol.
use openclaw_sip_voice.Base.{
  ◌≡◌, refl, inl, inr, ◌&&◌, Bool, true, String, List, [], ◌∷◌, some, arith, ◌==◌, ◌||◌, eq_iff,
  Bool-cases, if_cases,
}
use openclaw_sip_voice.Protocol.Value.{Value, str, obj, Fields, end, field}
use openclaw_sip_voice.Protocol.Pattern.{call_id_re}
use openclaw_sip_voice.Protocol.Validators.{includes}
use openclaw_sip_voice.Protocol.Messages.{returned}
use openclaw_sip_voice.Protocol.Builders.{
  CommandOptions, Fallbacks, command_envelope, optional_field, build_audio_clear,
}
use openclaw_sip_voice.Protocol.Builders.Accepted.{
  IsRejected, reason_in, envelope_ok, build_audio_clear-Builds,
}
use openclaw_sip_voice.Runtime.Sink.{audio_clear_reason_from_value, reason_from_fields}

abbrev pub clear_reasons : List String
clear_reasons = "barge_in" ∷ "user_request" ∷ "call_ending" ∷ []

known_reason :
    (s : String)
    → s == "barge_in" || s == "user_request" || s == "call_ending" ≡ true
    → includes clear_reasons s ≡ true
unfolding includes
known_reason s h = elim (Bool-cases (s == "barge_in")) [
  | inl same ↦ rw ((eq_iff s "barge_in").0 same)
  | inr first ↦ elim (Bool-cases (s == "user_request")) [
    | inl same ↦ rw ((eq_iff s "user_request").0 same)
    | inr second ↦ rw ((eq_iff s "call_ending").0 (ground (arith, h, first, second)))
  ]
]

mutual
  unfolding audio_clear_reason_from_value reason_from_fields includes

  audio_clear_reason_from_value-in :
      (v : Value) → reason_in clear_reasons (some (audio_clear_reason_from_value v)) ≡ true
  audio_clear_reason_from_value-in (str s) =
      if_cases (λ reason. reason_in clear_reasons (some reason) ≡ true)
        (s == "barge_in" || s == "user_request" || s == "call_ending") (known_reason s) (λ _. refl)
  audio_clear_reason_from_value-in (obj fs) = reason_from_fields-in fs
  audio_clear_reason_from_value-in _ = refl

  reason_from_fields-in :
      (fs : Fields) → reason_in clear_reasons (some (reason_from_fields fs)) ≡ true
  reason_from_fields-in end = refl
  reason_from_fields-in (field k v fs) =
      ground (arith, audio_clear_reason_from_value-in v, reason_from_fields-in fs)

module _ (date_parses : String → Bool) (fallbacks : Fallbacks) where
  -- Whatever a session gives as a reason for clearing its audio, the command is built if its envelope
  -- and the id of the call are right.
  pub audio_clear_of_any_reason :
      (options : CommandOptions) (call : String) (v : Value)
      → envelope_ok date_parses fallbacks options && call_id_re call ≡ true
      → let reason = some (audio_clear_reason_from_value v) in
        build_audio_clear date_parses fallbacks options call reason
        ≡ returned (
            obj (
              command_envelope "audio.clear" options fallbacks (
                field "callId"
                  (str call)
                  (field "scope" (str "queued") (optional_field "reason" reason end)))))
  audio_clear_of_any_reason options call v h =
      let known = audio_clear_reason_from_value-in v in
      elim (build_audio_clear-Builds date_parses fallbacks options call
        (some (audio_clear_reason_from_value v))) [
          | inl (ok, built) ↦ built
          | inr (bad, rejected) ↦ absurd (ground (arith, bad, h, known))
        ]

  -- The protocol does not have this reason.
  pub failed_connection_is_no_reason :
      (options : CommandOptions) (call : String)
      → IsRejected
          (build_audio_clear date_parses fallbacks options call (some "session_connect_failed"))
  unfolding includes
  failed_connection_is_no_reason options call =
      elim (build_audio_clear-Builds date_parses fallbacks options call
        (some "session_connect_failed")) [
          | inl (ok, built) ↦ absurd (ground (arith, ok))
          | inr (bad, rejected) ↦ rejected
        ]
