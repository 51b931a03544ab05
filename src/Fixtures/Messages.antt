-- ===== src/Fixtures/Messages.antt =====
-- protocol/validator.mjs: validateMessage and the two kinds of failure.
use openclaw_sip_voice.Base.{
  ℕ, Bool, true, false, String, List, [], ◌∷◌, ◌++◌, Option, none, some, is_empty, map,
  if◌then◌else◌,
}
use openclaw_sip_voice.Protocol.Value.{
  Value, str, obj, Fields, get, root, key_of, text, Issue, error_at, message_must_be_object,
  must_be_version, forbidden_field, type_must_be_string, unknown_type, unsupported_version,
}
use openclaw_sip_voice.Protocol.Validators.{
  check, is_literal, validate_exact_object, protocol_version,
}
use openclaw_sip_voice.Protocol.Specs.Commands.{SpecLookup, own, inherited, missing}
use openclaw_sip_voice.Protocol.Messages.{
  ValidationCode, unsupported_protocol_version, validation_failed, collect_forbidden_field_names,
  foreign_version,
}
use openclaw_sip_voice.Protocol.Builders.{build_unsupported_version_error}
use openclaw_sip_voice.Fixtures.Commands.{find_spec}

-- The object that is returned if `ok` is false.
pub record Refused : Type 0 where
  pub code : ValidationCode
  pub fatal : Bool
  pub close_code : Option ℕ
  pub expected_protocol_versions : Option (List String)
  pub errors : List Issue
  pub event : Option Value

-- What validateMessage returns, and the case that it throws a TypeError.
pub data Verdict : Type 0 where
  passed : Verdict
  refused : Refused → Verdict
  type_error_thrown : Verdict

unfoldable pub failure : List Issue → Verdict
failure errors = refused (record {
  code = validation_failed;
  fatal = false;
  close_code = none;
  expected_protocol_versions = none;
  errors = errors;
  event = none;
})

-- unsupportedProtocolVersionFailure; `now` is `new Date().toISOString()`.
unfoldable pub unsupported_failure : String → String → Verdict
unsupported_failure now received = refused (record {
  code = unsupported_protocol_version;
  fatal = true;
  close_code = some 1002;
  expected_protocol_versions = some (protocol_version ∷ []);
  errors = error_at (key_of root "protocolVersion") (unsupported_version received) ∷ [];
  event = some (build_unsupported_version_error received now);
})

-- `errors` when the type is looked at.
unfoldable pub errors_before_type : Fields → List Issue
errors_before_type fs =
    check (is_literal (text protocol_version) (get "protocolVersion" fs))
      (key_of root "protocolVersion") must_be_version
    ++ map (λ at. error_at at forbidden_field) (collect_forbidden_field_names (obj fs) root)

-- The end of validateMessage.
unfoldable pub finish : List Issue → Verdict
unfolding failure
finish errors = if is_empty errors then passed else failure errors

unfoldable pub with_spec : Fields → List Issue → String → SpecLookup → Verdict
unfolding finish failure
with_spec fs errors type (own spec) = finish (errors ++ validate_exact_object spec (obj fs) root)
with_spec fs errors type inherited = type_error_thrown
with_spec fs errors type missing =
    failure (errors ++ error_at (key_of root "type") (unknown_type type) ∷ [])

module _ (date_parses : String → Bool) (now : String) where
  unfoldable pub with_type : Fields → List Issue → Value → Verdict
  unfolding with_spec failure
  with_type fs errors (str type) = with_spec fs errors type (find_spec date_parses type)
  with_type fs errors _ = failure (errors ++ error_at (key_of root "type") type_must_be_string ∷ [])

  unfoldable pub with_version : Fields → Option String → Verdict
  unfolding with_type unsupported_failure
  with_version fs (some received) = unsupported_failure now received
  with_version fs none = with_type fs (errors_before_type fs) (get "type" fs)

  -- validateMessage
  unfoldable pub validate_message : Value → Verdict
  unfolding with_version failure
  validate_message (obj fs) = with_version fs (foreign_version (get "protocolVersion" fs))
  validate_message _ = failure (error_at root message_must_be_object ∷ [])
