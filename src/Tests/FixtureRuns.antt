-- ===== src/Tests/FixtureRuns.antt =====
-- protocol/validator.mjs on concrete folders of fixtures.
use openclaw_sip_voice.Base.{◌≡◌, refl, ◌↔◌, String, List, ◌∷◌, some}
use openclaw_sip_voice.Protocol.Value.{Value, null, str, obj, num, nat, end, field, has_own}
use openclaw_sip_voice.Protocol.Messages.{valid, validate_protocol_message}
use openclaw_sip_voice.Protocol.Builders.Accepted.{validation}
use openclaw_sip_voice.Tests.Inputs.{texts, noon, parses}
use openclaw_sip_voice.Protocol.Validators.{includes}
use openclaw_sip_voice.Fixtures.Parts.{command_id}
use openclaw_sip_voice.Fixtures.Commands.{find_spec, message_specs, status_get_spec, command_spec}
use openclaw_sip_voice.Fixtures.Messages.{
  passed, failure, errors_before_type, finish, with_spec, with_type, with_version, validate_message,
}
use openclaw_sip_voice.Fixtures.Agreement.{Agree, HasKeysOnce, validate_message-Agree}
use openclaw_sip_voice.Fixtures.Run.{
  Folder, valid_fixtures, invalid_fixtures, Read, parsed, FixtureEnv, required_valid_fixtures,
  required_invalid_fixtures, insert_name, sort_names, json_names, json_files, ends_with, precedes,
  code_units, require_fixture_names, schema_failures, judged, check_fixture, check_fixtures,
  fixture_report, run_fixture_validation,
}
use openclaw_sip_voice.Fixtures.Run.Result.{AllFine, ReportsOk, run_fixture_validation_iff}
use openclaw_sip_voice.Fixtures.Run.Plugin.{Holds, IsRefusal, run_fixture_validation-plugin}

abbrev status_get_message : Value
status_get_message = obj (
    field "protocolVersion" (str "1.0") (
      field "type" (str "status.get")
        (field "sentAt" (str noon) (field "commandId" (str "cmd_000001") end))))

keys_once : HasKeysOnce status_get_message
unfolding has_own
keys_once = (refl, (refl, (refl, (refl, tt))))

validate_message-Agree_example :
    Agree
      (validate_message parses noon status_get_message)
      (validate_protocol_message parses status_get_message)
validate_message-Agree_example = validate_message-Agree parses noon status_get_message keys_once

-- Every file of the first folder holds the message, and every file of the second one a number.
abbrev read_by_folder : Folder → String → Read
read_by_folder valid_fixtures name = parsed status_get_message
read_by_folder invalid_fixtures name = parsed (num (nat 7))

abbrev required_names : Folder → List String
required_names valid_fixtures = "notes.txt" ∷ required_valid_fixtures
required_names invalid_fixtures = required_invalid_fixtures

abbrev full_env : FixtureEnv
full_env = record {
  date_parses = parses;
  now = noon;
  schema = parsed null;
  listing = λ folder. some (required_names folder);
  read_fixture = read_by_folder;
}

accepted : validate_message parses noon status_get_message ≡ passed
unfolding validation texts validate_message with_version with_type with_spec finish
    errors_before_type find_spec message_specs status_get_spec command_spec command_id
accepted = refl

all_is_well : ReportsOk full_env (run_fixture_validation full_env)
unfolding validation texts validate_message with_version with_type with_spec finish
    errors_before_type find_spec message_specs status_get_spec command_spec command_id insert_name
    sort_names json_names json_files ends_with precedes code_units require_fixture_names
    schema_failures judged check_fixture check_fixtures fixture_report run_fixture_validation
    failure
all_is_well = refl

run_fixture_validation_iff_example :
    ReportsOk full_env (run_fixture_validation full_env)
    ↔ AllFine full_env
        (json_names (required_names valid_fixtures))
        (json_names (required_names invalid_fixtures))
run_fixture_validation_iff_example =
    run_fixture_validation_iff full_env (required_names valid_fixtures)
      (required_names invalid_fixtures) refl refl

run_fixture_validation-plugin_example :
    ((name : String) (v : Value)
      → Holds full_env valid_fixtures (required_names valid_fixtures) name v
      → validate_protocol_message parses v ≡ valid v)
    × ((name : String) (v : Value)
        → Holds full_env invalid_fixtures (required_names invalid_fixtures) name v
        → IsRefusal (validate_protocol_message parses v))
run_fixture_validation-plugin_example =
    run_fixture_validation-plugin full_env (required_names valid_fixtures)
      (required_names invalid_fixtures) refl refl all_is_well

-- A fixture that holds `null` passes in both folders, though validateMessage refuses it.
null_env : FixtureEnv
null_env = record full_env { read_fixture = λ folder name. parsed null }

null_passes : ReportsOk null_env (run_fixture_validation null_env)
unfolding null_env insert_name sort_names json_names json_files includes ends_with precedes
    code_units require_fixture_names schema_failures check_fixture check_fixtures fixture_report
    run_fixture_validation
null_passes = refl
