-- ===== src/Tests/Commands.antt =====
-- plugin/src/protocol.ts: the builders on concrete options.
use openclaw_sip_voice.Base.{
  ℕ, ◌≡◌, refl, ◌↔◌, ◌&&◌, List, [], ◌∷◌, ◌++◌, none, some, length, false, arith,
}
use openclaw_sip_voice.Protocol.Value.{num, nat, str, obj, end, field, root}
use openclaw_sip_voice.Protocol.Pattern.{call_id_re}
use openclaw_sip_voice.Protocol.Validators.{base64_audio_payload, is_integer_from}
use openclaw_sip_voice.Protocol.Base64.{base64_encode, sextet}
use openclaw_sip_voice.Protocol.Base64.Payload.{base64_audio_payload-base64_encode}
use openclaw_sip_voice.Protocol.Messages.{returned}
use openclaw_sip_voice.Protocol.Builders.{
  RemoteParty, bytes, payload_text, audio_frame, command_envelope, remote_value,
  sip_voice_audio_format, optional_field, build_status_get, build_call_answer, build_call_hangup,
  build_audio_clear, build_call_dial, build_audio_out,
}
use openclaw_sip_voice.Protocol.Builders.Accepted.{
  validation, Builds, reason_in, envelope_ok, remote_ok, payload_ok, build_call_answer-Builds,
  build_call_hangup-Builds, build_audio_clear-Builds, build_call_dial-Builds,
  build_audio_out-Builds,
}
use openclaw_sip_voice.Tests.Inputs.{texts, parses, defaults, no_options}

abbrev alice : RemoteParty
alice = record { handle = "+15551234"; display_name = some "Alice" }

-- 160 bytes.
abbrev ten : List ℕ
ten = 0 ∷ 255 ∷ 7 ∷ 128 ∷ 1 ∷ 2 ∷ 3 ∷ 4 ∷ 5 ∷ 6 ∷ []

abbrev forty : List ℕ
forty = ten ++ ten ++ ten ++ ten

abbrev frame : List ℕ
frame = forty ++ forty ++ forty ++ forty

build_tests :
    (build_status_get parses defaults no_options
      ≡ returned (obj (command_envelope "status.get" no_options defaults end)))
    × (length frame ≡ 160)
    × (base64_encode (77 ∷ 97 ∷ []) ≡ "TWE=")
    × (call_id_re "call_12" ≡ false)
unfolding validation texts build_status_get base64_encode sextet
build_tests = (refl, refl, refl, refl)

build_call_answer-Builds_example :
    Builds
      (envelope_ok parses defaults no_options && call_id_re "call_000001")
      (command_envelope "call.answer" no_options defaults (field "callId" (str "call_000001") end))
      (build_call_answer parses defaults no_options "call_000001")
build_call_answer-Builds_example = build_call_answer-Builds parses defaults no_options "call_000001"

build_call_hangup-Builds_example :
    Builds
      (envelope_ok parses defaults no_options
        && call_id_re "call_000001"
        && reason_in ("user_request" ∷ "completed" ∷ "failed" ∷ []) (some "failed"))
      (command_envelope "call.hangup" no_options defaults
        (field "callId" (str "call_000001") (optional_field "reason" (some "failed") end)))
      (build_call_hangup parses defaults no_options "call_000001" (some "failed"))
build_call_hangup-Builds_example =
    build_call_hangup-Builds parses defaults no_options "call_000001" (some "failed")

-- The reason that a failed connection gives, which is none of the three.
build_audio_clear-Builds_example :
    Builds
      (envelope_ok parses defaults no_options
        && call_id_re "call_000001"
        && reason_in
            ("barge_in" ∷ "user_request" ∷ "call_ending" ∷ [])
            (some "session_connect_failed"))
      (command_envelope "audio.clear" no_options defaults (
        field "callId" (str "call_000001") (
          field "scope"
            (str "queued")
            (optional_field "reason" (some "session_connect_failed") end))))
      (build_audio_clear parses defaults no_options "call_000001" (some "session_connect_failed"))
build_audio_clear-Builds_example =
    build_audio_clear-Builds parses defaults no_options "call_000001"
      (some "session_connect_failed")

build_call_dial-Builds_example :
    Builds
      (envelope_ok parses defaults no_options && remote_ok parses defaults alice)
      (command_envelope "call.dial" no_options defaults
        (field "remote" (remote_value alice) (field "audio" sip_voice_audio_format end)))
      (build_call_dial parses defaults no_options alice none)
build_call_dial-Builds_example = build_call_dial-Builds parses defaults no_options alice

build_audio_out-Builds_example :
    Builds
      (envelope_ok parses defaults no_options
        && call_id_re "call_000001"
        && is_integer_from 0 (num (nat 3))
        && payload_ok parses defaults (payload_text (bytes frame)))
      (command_envelope "audio.out" no_options defaults (
        field "callId"
          (str "call_000001")
          (field "sequence" (num (nat 3)) (field "audio" (audio_frame (bytes frame)) end))))
      (build_audio_out parses defaults no_options "call_000001" (nat 3) none (some (bytes frame)))
build_audio_out-Builds_example =
    build_audio_out-Builds parses defaults no_options "call_000001" (nat 3) (bytes frame)

base64_audio_payload-base64_encode_example :
    (base64_audio_payload (str (base64_encode ten)) root ≡ []) ↔ (length ten ≡ 160)
base64_audio_payload-base64_encode_example =
    base64_audio_payload-base64_encode ten root (ground arith)
