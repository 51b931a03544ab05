-- ===== src/Tests/Messages.antt =====
-- plugin/src/protocol.ts on concrete messages.
use openclaw_sip_voice.Base.{
  Option, some, ◌==◌, if◌then◌else◌, ◌≡◌, refl, ◌⊎◌, true, String, List, [], ◌∷◌, eq_iff, none,
  false, ◌≤◌, ◌&&◌,
}
use openclaw_sip_voice.Protocol.Value.{
  Value, str, obj, Fields, end, field, get, root, Issue, null, error_at, message_must_be_object,
  as_record,
}
use openclaw_sip_voice.Protocol.Pattern.{codes, units}
use openclaw_sip_voice.Protocol.Validators.{
  includes_t, bounded_string, boolean_value, is_boolean, supported_protocol_versions,
  is_version_list,
}
use openclaw_sip_voice.Protocol.Specs.Events.{
  error_spec, error_details_spec, error_after, error_details_after, is_bool,
}
use openclaw_sip_voice.Protocol.Validators.Exact.{Conforms, validate_exact_object-Conforms}
use openclaw_sip_voice.Protocol.Specs.Commands.{status_get_spec}
use openclaw_sip_voice.Protocol.Messages.{
  assert_valid_protocol_message, ValidationError, validation_failed, valid, failed, throws,
  unsupported_protocol_version_failure, validate_protocol_message, validate_bridge_event,
  validate_plugin_command,
}
use openclaw_sip_voice.Protocol.Messages.Validity.{IsMessage, validate_protocol_message_iff}
use openclaw_sip_voice.Protocol.Messages.Failures.{
  Refusal, fatal_iff, validate_protocol_message-Refusal,
}
use openclaw_sip_voice.Protocol.Messages.Directions.{
  IsRefused, IsInheritedType, message_has_one_direction, validate_protocol_message_throws_iff,
}
use openclaw_sip_voice.Protocol.Builders.{build_unsupported_version_error}
use openclaw_sip_voice.Protocol.Builders.Accepted.{validation}
use openclaw_sip_voice.Protocol.Parse.{parse_json_message, parse_protocol_message}
use openclaw_sip_voice.Protocol.Parse.Parsed.{parse_protocol_message_iff}
use openclaw_sip_voice.Tests.Inputs.{texts, noon, parses}
use openclaw_sip_voice.Protocol.Builders.ForeignVersion.{build_unsupported_version_error_valid_iff}

abbrev status_get_of : String → Fields
status_get_of version = field "protocolVersion" (str version) (
    field "type" (str "status.get")
      (field "sentAt" (str noon) (field "commandId" (str "cmd_000001") end)))

abbrev inherited_message : Fields
inherited_message = field "protocolVersion" (str "1.0") (field "type" (str "constructor") end)

validate_tests :
    (validate_protocol_message parses (obj (status_get_of "1.0"))
      ≡ valid (obj (status_get_of "1.0")))
    × (validate_protocol_message parses (obj inherited_message) ≡ throws)
    × (validate_protocol_message parses (obj (status_get_of "2.0"))
        ≡ unsupported_protocol_version_failure "2.0")
unfolding validation texts
validate_tests = (refl, refl, refl)

validate_protocol_message_iff_example :
    (fs : Fields) × (obj (status_get_of "1.0") ≡ obj fs)
    × (obj (status_get_of "1.0") ≡ obj (status_get_of "1.0"))
    × IsMessage parses fs
unfolding validation texts
validate_protocol_message_iff_example =
    (validate_protocol_message_iff parses (obj (status_get_of "1.0")) (obj (status_get_of "1.0"))).0
      refl

validate_exact_object-Conforms_example :
    (fs : Fields) × (obj (status_get_of "1.0") ≡ obj fs) × Conforms (status_get_spec parses) root fs
unfolding validation texts status_get_spec
validate_exact_object-Conforms_example =
    (validate_exact_object-Conforms (status_get_spec parses) (obj (status_get_of "1.0")) root).0
      refl

fatal_iff_example :
    (e : ValidationError) × (errors : List Issue) × (validate_protocol_message parses
        (obj (status_get_of "2.0"))
      ≡ failed e errors)
    × (e.fatal ≡ true)
unfolding get
fatal_iff_example =
    (fatal_iff parses (obj (status_get_of "2.0"))).1
      (status_get_of "2.0", "2.0", refl, refl, (λ e. cc ((eq_iff "2.0" "1.0").1 e)))

abbrev refusal_of_null : ValidationError
refusal_of_null = record {
  code = validation_failed;
  errors = error_at root message_must_be_object ∷ [];
  fatal = false;
  close_code = none;
  expected_protocol_versions = none;
}

validate_protocol_message-Refusal_example :
    Refusal refusal_of_null (error_at root message_must_be_object ∷ [])
unfolding validation texts
validate_protocol_message-Refusal_example =
    validate_protocol_message-Refusal parses null {e = refusal_of_null}
      {errors = error_at root message_must_be_object ∷ []} refl

message_has_one_direction_example :
    ((validate_bridge_event parses (obj (status_get_of "1.0")) ≡ valid (obj (status_get_of "1.0")))
      × IsRefused (validate_plugin_command parses (obj (status_get_of "1.0"))))
    ⊎ (IsRefused (validate_bridge_event parses (obj (status_get_of "1.0")))
        × (validate_plugin_command parses (obj (status_get_of "1.0"))
            ≡ valid (obj (status_get_of "1.0"))))
unfolding validation texts
message_has_one_direction_example = message_has_one_direction parses (status_get_of "1.0") refl

validate_protocol_message_throws_iff_example :
    (fs : Fields) × (obj inherited_message ≡ obj fs) × IsInheritedType fs
unfolding validation texts
validate_protocol_message_throws_iff_example =
    (validate_protocol_message_throws_iff parses (obj inherited_message)).0 refl

build_unsupported_version_error_valid_iff_example :
    (parses noon && includes_t (codes noon) ≡ true) × (units "2.0" ≤ 130)
unfolding validation texts build_unsupported_version_error error_spec error_details_spec error_after
    error_details_after is_bool bounded_string validate_bridge_event boolean_value is_boolean
    supported_protocol_versions is_version_list as_record
build_unsupported_version_error_valid_iff_example =
    (build_unsupported_version_error_valid_iff parses "2.0" noon).0 refl

abbrev status_get_json : String
status_get_json =
    "{\"protocolVersion\":\"1.0\",\"type\":\"status.get\",\"sentAt\":\"2026-05-01T12:00:00.000Z\",\"commandId\":\"cmd_000001\"}"

-- A parser that knows one text.
abbrev json_parse : String → Option Value
json_parse s = if s == status_get_json then some (obj (status_get_of "1.0")) else none

parse_protocol_message_iff_example :
    (fs : Fields) × (obj (status_get_of "1.0") ≡ obj fs)
    × IsMessage parses fs
    × ((str status_get_json ≡ obj fs)
        ⊎ ((s : String) × (str status_get_json ≡ str s) × (json_parse s ≡ some (obj fs))))
unfolding validation texts parse_protocol_message parse_json_message assert_valid_protocol_message
parse_protocol_message_iff_example =
    (parse_protocol_message_iff parses json_parse (str status_get_json)
        (obj (status_get_of "1.0"))).0
      refl
