-- ===== src/Protocol/Messages.antt =====
-- plugin/src/protocol.ts: validateProtocolMessage, its two callers and the assertions on top.
pub mod Validity
pub mod Failures
pub mod Types
pub mod Directions
use openclaw_sip_voice.Base.{
  ℕ, ◌+◌, Bool, true, false, String, List, [], ◌∷◌, ◌++◌, Option, none, some, if◌then◌else◌, ◌==◌,
  map, is_empty,
}
use openclaw_sip_voice.Protocol.Value.{
  Value, str, arr, obj, undefined, Items, nil, cons, Fields, end, field, get, Place, root, key_of,
  item_of, text, Message, Issue, error_at, message_must_be_object, must_be_version, forbidden_field,
  type_must_be_string, unsupported_version, unknown_type, not_bridge_event, not_plugin_command,
}
use openclaw_sip_voice.Protocol.Pattern.{forbidden_field_name_re}
use openclaw_sip_voice.Protocol.Validators.{
  check, includes, is_literal, validate_exact_object, protocol_version,
}
use openclaw_sip_voice.Protocol.Specs.Commands.{
  SpecLookup, own, inherited, missing, bridge_event_types, plugin_command_types, find_spec,
}

pub data ValidationCode : Type 0 where
  unsupported_protocol_version validation_failed : ValidationCode

-- ProtocolValidationError
pub record ValidationError : Type 0 where
  pub code : ValidationCode
  pub errors : List Issue
  pub fatal : Bool
  pub close_code : Option ℕ
  pub expected_protocol_versions : Option (List String)

-- ProtocolValidationResult, and the case that the call throws a TypeError instead.
pub data Result : Type 0 where
  valid : Value → Result
  failed : ValidationError → List Issue → Result
  throws : Result

abbrev pub unsupported_version_close_code : ℕ
unsupported_version_close_code = 1002

unfoldable pub create_validation_error : List Issue → ValidationError
create_validation_error errors = record {
  code = validation_failed;
  errors = errors;
  fatal = false;
  close_code = none;
  expected_protocol_versions = none;
}

unfoldable pub validation_failure : List Issue → Result
unfolding create_validation_error
validation_failure errors = failed (create_validation_error errors) errors

unfoldable pub unsupported_protocol_version_failure : String → Result
unsupported_protocol_version_failure received =
    let errors = error_at (key_of root "protocolVersion") (unsupported_version received) ∷ [] in
    failed
      (record {
        code = unsupported_protocol_version;
        errors = errors;
        fatal = true;
        close_code = some unsupported_version_close_code;
        expected_protocol_versions = some (protocol_version ∷ []);
      })
      errors

-- collectForbiddenFieldNames: the places that it finds, in order.
unfoldable mutual
  pub collect_forbidden_field_names : Value → Place → List Place
  collect_forbidden_field_names (arr vs) at = collect_items vs at 0
  collect_forbidden_field_names (obj fs) at = collect_fields fs at
  collect_forbidden_field_names _ at = []

  pub collect_items : Items → Place → ℕ → List Place
  collect_items nil at i = []
  collect_items (cons v vs) at i =
      collect_forbidden_field_names v (item_of at i) ++ collect_items vs at (i + 1)

  pub collect_fields : Fields → Place → List Place
  collect_fields end at = []
  collect_fields (field k v fs) at =
      (if forbidden_field_name_re k then key_of at k ∷ [] else [])
      ++ (collect_forbidden_field_names v (key_of at k) ++ collect_fields fs at)

-- The version is a text, and another one.
unfoldable pub foreign_version : Value → Option String
foreign_version (str s) = if s == protocol_version then none else some s
foreign_version _ = none

-- The issues that come before the type is looked at.
unfoldable pub early_issues : Fields → List Issue
early_issues fs =
    check (is_literal (text protocol_version) (get "protocolVersion" fs))
      (key_of root "protocolVersion") must_be_version
    ++ map (λ at. error_at at forbidden_field) (collect_forbidden_field_names (obj fs) root)

-- The end of validateProtocolMessage.
unfoldable pub conclude : Fields → List Issue → Result
unfolding validation_failure
conclude fs errors = if is_empty errors then valid (obj fs) else validation_failure errors

unfoldable pub validate_as : Fields → List Issue → String → SpecLookup → Result
unfolding conclude validation_failure
validate_as fs errors type (own spec) =
    conclude fs (errors ++ validate_exact_object spec (obj fs) root)
validate_as fs errors type inherited = throws
validate_as fs errors type missing =
    validation_failure (errors ++ error_at (key_of root "type") (unknown_type type) ∷ [])

module _ (date_parses : String → Bool) where
  unfoldable pub validate_typed : Fields → List Issue → Value → Result
  unfolding validate_as validation_failure
  validate_typed fs errors (str type) = validate_as fs errors type (find_spec date_parses type)
  validate_typed fs errors _ =
      validation_failure (errors ++ error_at (key_of root "type") type_must_be_string ∷ [])

  unfoldable pub validate_object : Fields → Option String → Result
  unfolding validate_typed unsupported_protocol_version_failure
  validate_object fs (some received) = unsupported_protocol_version_failure received
  validate_object fs none = validate_typed fs (early_issues fs) (get "type" fs)

  -- validateProtocolMessage
  unfoldable pub validate_protocol_message : Value → Result
  unfolding validate_object validation_failure
  validate_protocol_message (obj fs) =
      validate_object fs (foreign_version (get "protocolVersion" fs))
  validate_protocol_message _ = validation_failure (error_at root message_must_be_object ∷ [])

-- isBridgeEventType and isPluginCommandType, by the list of types.
unfoldable pub is_type_in : List String → Value → Bool
is_type_in types (str type) = includes types type
is_type_in types _ = false

abbrev type_of : Value → Value
type_of (obj fs) = get "type" fs
type_of _ = undefined

abbrev shown : Value → String
shown (str s) = s
shown _ = ""

-- The second half of validateBridgeEvent and of validatePluginCommand.
unfoldable pub restrict : List String → (String → Message) → Result → Result
unfolding validation_failure
restrict types refusal (valid v) =
    if is_type_in types (type_of v)
    then valid v
    else validation_failure (error_at (key_of root "type") (refusal (shown (type_of v))) ∷ [])
restrict types refusal r = r

module _ (date_parses : String → Bool) where
  unfoldable pub validate_bridge_event : Value → Result
  validate_bridge_event v =
      restrict bridge_event_types not_bridge_event (validate_protocol_message date_parses v)

  unfoldable pub validate_plugin_command : Value → Result
  validate_plugin_command v =
      restrict plugin_command_types not_plugin_command (validate_protocol_message date_parses v)

-- What is thrown by the assertions, the parser and the builders.
pub data Thrown : Type 0 where
  invalid : ValidationError → Thrown
  type_error : Thrown

pub data Outcome : Type 0 where
  returned : Value → Outcome
  threw : Thrown → Outcome

unfoldable pub assert_valid : Result → Outcome
assert_valid (valid v) = returned v
assert_valid (failed e errors) = threw (invalid e)
assert_valid throws = threw type_error

module _ (date_parses : String → Bool) where
  unfoldable pub assert_valid_protocol_message : Value → Outcome
  assert_valid_protocol_message v = assert_valid (validate_protocol_message date_parses v)

  unfoldable pub assert_valid_bridge_event : Value → Outcome
  assert_valid_bridge_event v = assert_valid (validate_bridge_event date_parses v)

  unfoldable pub assert_valid_plugin_command : Value → Outcome
  assert_valid_plugin_command v = assert_valid (validate_plugin_command date_parses v)
