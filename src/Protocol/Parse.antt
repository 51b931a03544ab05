-- ===== src/Protocol/Parse.antt =====
-- plugin/src/protocol.ts, parseProtocolMessage and parseBridgeEvent. JSON.parse is a parameter: the
-- value of a text, or `none` if it throws.
pub mod Parsed
use openclaw_sip_voice.Base.{Bool, String, Option, none, some, [], ◌∷◌}
use openclaw_sip_voice.Protocol.Value.{Value, str, root, error_at, must_be_json}
use openclaw_sip_voice.Protocol.Messages.{
  Outcome, returned, threw, invalid, create_validation_error, assert_valid_protocol_message,
  assert_valid_bridge_event,
}

abbrev pub or_invalid : Option Value → Outcome
or_invalid (some v) = returned v
or_invalid none = threw (invalid (create_validation_error (error_at root must_be_json ∷ [])))

abbrev pub then_assert : (Value → Outcome) → Outcome → Outcome
then_assert assert (returned v) = assert v
then_assert assert (threw e) = threw e

module _ (date_parses : String → Bool) (json_parse : String → Option Value) where
  -- parseJsonMessage
  unfoldable pub parse_json_message : Value → Outcome
  parse_json_message (str s) = or_invalid (json_parse s)
  parse_json_message v = returned v

  unfoldable pub parse_protocol_message : Value → Outcome
  parse_protocol_message v =
      then_assert (assert_valid_protocol_message date_parses) (parse_json_message v)

  unfoldable pub parse_bridge_event : Value → Outcome
  parse_bridge_event v = then_assert (assert_valid_bridge_event date_parses) (parse_json_message v)
