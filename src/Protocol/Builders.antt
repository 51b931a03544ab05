-- ===== src/Protocol/Builders.antt =====
-- plugin/src/protocol.ts: the builders of commands, of an audio frame and of the error event for a
-- foreign version.
pub mod Accepted
pub mod ForeignVersion
use openclaw_sip_voice.Base.{
  ℕ, Bool, true, false, String, List, Option, none, some, if◌then◌else◌, is_empty,
}
use Prim.Native.String.{◌++◌}
use openclaw_sip_voice.Protocol.Value.{
  nat, Value, undefined, bool, num, str, arr, obj, nil, cons, Fields, end, field, Number, root,
  key_of, Issue,
}
use openclaw_sip_voice.Protocol.Validators.{validate_exact_object, protocol_version}
use openclaw_sip_voice.Protocol.Specs.Parts.{audio_frame_spec}
use openclaw_sip_voice.Protocol.Base64.{base64_encode}
use openclaw_sip_voice.Protocol.Messages.{
  Outcome, returned, threw, invalid, create_validation_error, assert_valid_plugin_command,
}

-- RemoteParty
pub record RemoteParty : Type 0 where
  pub handle : String
  pub display_name : Option String

-- BuildCommandOptions
pub record CommandOptions : Type 0 where
  pub command_id : Option String
  pub sent_at : Option String

-- What the builders read when an option is missing: `createCommandId()` and
-- `new Date().toISOString()`.
pub record Fallbacks : Type 0 where
  pub new_command_id : String
  pub now : String

abbrev pub or_else : Option String → String → String
or_else none s = s
or_else (some t) s = t

-- A property that is spread in only if it is there.
abbrev pub optional_field : String → Option String → Fields → Fields
optional_field key none fs = fs
optional_field key (some s) fs = field key (str s) fs

unfoldable pub remote_value : RemoteParty → Value
remote_value remote =
    obj (field "handle" (str remote.handle) (optional_field "displayName" remote.display_name end))

abbrev with_audio_format : Fields → Fields
with_audio_format fs = field "format" (str "g711_ulaw") (
    field "sampleRateHz" (num (nat 8000)) (
      field "channels" (num (nat 1))
        (field "frameDurationMs" (num (nat 20)) (field "payloadEncoding" (str "base64") fs))))

-- SIP_VOICE_AUDIO_FORMAT
unfoldable pub sip_voice_audio_format : Value
sip_voice_audio_format = obj (with_audio_format end)

abbrev audio_or_format : Option Value → Value
audio_or_format none = sip_voice_audio_format
audio_or_format (some audio) = audio

-- The payload of a frame: a text, or bytes to be encoded.
pub data Payload : Type 0 where
  encoded : String → Payload
  bytes : List ℕ → Payload

unfoldable pub payload_text : Payload → String
payload_text (encoded s) = s
payload_text (bytes bs) = base64_encode bs

unfoldable pub audio_frame : Payload → Value
audio_frame payload = obj (with_audio_format (field "payload" (str (payload_text payload)) end))

abbrev accept : Value → List Issue → Outcome
accept v errors =
    if is_empty errors then returned v else threw (invalid (create_validation_error errors))

-- buildAudioFrame, with assertValidAudioFrame
unfoldable pub build_audio_frame : Payload → Outcome
build_audio_frame payload =
    accept (audio_frame payload)
      (validate_exact_object audio_frame_spec (audio_frame payload) (key_of root "audio"))

-- commandEnvelope, with the properties that come after it
unfoldable pub command_envelope : String → CommandOptions → Fallbacks → Fields → Fields
command_envelope type options fallbacks fs = field "protocolVersion" (str protocol_version) (
    field "type" (str type) (
      field "sentAt" (str (or_else options.sent_at fallbacks.now))
        (field "commandId" (str (or_else options.command_id fallbacks.new_command_id)) fs)))

-- The `audio` of buildAudioOutCommand: `options.audio`, or a frame of `options.payload`.
unfoldable pub audio_of : Option Value → Option Payload → Outcome
audio_of (some audio) payload = returned audio
audio_of none none = returned undefined
audio_of none (some payload) = build_audio_frame payload

-- buildUnsupportedProtocolVersionErrorEvent; `received` is `String(receivedVersion)`.
unfoldable pub build_unsupported_version_error : String → String → Value
build_unsupported_version_error received sent_at = obj (
    field "protocolVersion" (str protocol_version) (
      field "type" (str "error") (
        field "sentAt" (str sent_at) (
          field "fatal" (bool true) (
            field "error"
              (obj (
                field "code" (str "unsupported_protocol_version") (
                  field "message" (str ("Unsupported protocol version: " ++ received)) (
                    field "retryable" (bool false) (
                      field "expectedProtocolVersions" (arr (cons (str protocol_version) nil))
                        end)))))
              end)))))

module _ (date_parses : String → Bool) (fallbacks : Fallbacks) where
  unfoldable pub build_status_get : CommandOptions → Outcome
  build_status_get options =
      assert_valid_plugin_command date_parses
        (obj (command_envelope "status.get" options fallbacks end))

  unfoldable pub build_call_answer : CommandOptions → String → Outcome
  build_call_answer options call_id =
      assert_valid_plugin_command date_parses
        (obj (command_envelope "call.answer" options fallbacks (field "callId" (str call_id) end)))

  unfoldable pub build_call_dial : CommandOptions → RemoteParty → Option Value → Outcome
  build_call_dial options remote audio = assert_valid_plugin_command date_parses (
      obj (
        command_envelope "call.dial" options fallbacks
          (field "remote" (remote_value remote) (field "audio" (audio_or_format audio) end))))

  abbrev pub send_audio : CommandOptions → String → Number → Outcome → Outcome
  send_audio options call_id sequence (threw e) = threw e
  send_audio options call_id sequence (returned audio) = assert_valid_plugin_command date_parses (
      obj (
        command_envelope "audio.out" options fallbacks (
          field "callId" (str call_id)
            (field "sequence" (num sequence) (field "audio" audio end)))))

  unfoldable pub build_audio_out :
      CommandOptions → String → Number → Option Value → Option Payload → Outcome
  build_audio_out options call_id sequence audio payload =
      send_audio options call_id sequence (audio_of audio payload)

  unfoldable pub build_audio_clear : CommandOptions → String → Option String → Outcome
  build_audio_clear options call_id reason = assert_valid_plugin_command date_parses (
      obj (
        command_envelope "audio.clear" options fallbacks (
          field "callId" (str call_id)
            (field "scope" (str "queued") (optional_field "reason" reason end)))))

  unfoldable pub build_call_hangup : CommandOptions → String → Option String → Outcome
  build_call_hangup options call_id reason = assert_valid_plugin_command date_parses (
      obj (
        command_envelope "call.hangup" options fallbacks
          (field "callId" (str call_id) (optional_field "reason" reason end))))
