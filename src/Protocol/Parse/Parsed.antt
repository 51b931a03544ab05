-- ===== src/Protocol/Parse/Parsed.antt =====
-- plugin/src/protocol.ts, parseProtocolMessage: what it returns.
use openclaw_sip_voice.Base.{
  ◌≡◌, refl, ap, ◌∙◌, ◌↔◌, ◌⊎◌, inl, inr, Bool, String, Option, none, some,
}
use openclaw_sip_voice.Protocol.Value.{Value, str, obj, Fields}
use openclaw_sip_voice.Protocol.Messages.{
  Result, valid, failed, throws, Outcome, returned, threw, assert_valid,
  assert_valid_protocol_message, validate_protocol_message,
}
use openclaw_sip_voice.Protocol.Messages.Validity.{IsMessage, validate_protocol_message_iff}
use openclaw_sip_voice.Protocol.Parse.{
  or_invalid, then_assert, parse_json_message, parse_protocol_message,
}

pub assert_valid-eq-returned : (r : Result) (w : Value) → assert_valid r ≡ returned w → r ≡ valid w
unfolding assert_valid
assert_valid-eq-returned (valid v) w e = cc (e)
assert_valid-eq-returned (failed error errors) w e = cc (e)
assert_valid-eq-returned throws w e = cc (e)

module _ (date_parses : String → Bool) (json_parse : String → Option Value) where
  -- What is behind an outcome of the parser.
  IsParsed : Outcome → Value → Type 0
  IsParsed read w =
      (fs : Fields) × (read ≡ returned (obj fs)) × (w ≡ obj fs) × IsMessage date_parses fs

  then_assert_forth :
      (read : Outcome) (w : Value)
      → then_assert (assert_valid_protocol_message date_parses) read ≡ returned w
      → IsParsed read w
  unfolding assert_valid_protocol_message IsParsed
  then_assert_forth (returned v) w e =
      let accepted = assert_valid-eq-returned (validate_protocol_message date_parses v) w e in
      let (fs, here, there, m) = (validate_protocol_message_iff date_parses v w).0 accepted in
      (fs, ap returned here, there ∙ here, m)
  then_assert_forth (threw error) w e = cc (e)

  then_assert_back :
      (read : Outcome) (w : Value)
      → IsParsed read w
      → then_assert (assert_valid_protocol_message date_parses) read ≡ returned w
  unfolding assert_valid_protocol_message assert_valid IsParsed
  then_assert_back read w (fs, here, there, m) = rw (
    here,
    there,
    (validate_protocol_message_iff date_parses (obj fs) (obj fs)).1 (fs, refl, refl, m),
  )

  -- The input is the object, or a text that JSON.parse makes that object of.
  abbrev Holds : Value → Fields → Type 0
  Holds input fs =
      (input ≡ obj fs) ⊎ ((s : String) × (input ≡ str s) × (json_parse s ≡ some (obj fs)))

  or_invalid-returned : (o : Option Value) (w : Value) → (or_invalid o ≡ returned w) ↔ (o ≡ some w)
  or_invalid-returned (some v) w = (λ e. cc (e), λ e. cc (e))
  or_invalid-returned none w = (λ e. cc (e), λ e. cc (e))

  parse_json_message-Holds :
      (input : Value) (fs : Fields)
      → (parse_json_message date_parses json_parse input ≡ returned (obj fs)) ↔ Holds input fs
  unfolding parse_json_message
  parse_json_message-Holds (str s) fs =
      let read = or_invalid-returned (json_parse s) (obj fs) in
      (
        λ e. inr (s, refl, read.0 e),
        λ h. elim h [ inl same ↦ cc (same) | inr (t, same, found) ↦ read.1 (cc (same, found)) ],
      )
  parse_json_message-Holds _ fs =
      (λ e. inl (cc (e)), λ h. elim h [ inl same ↦ cc (same) | inr (t, same, found) ↦ cc (same) ])

  -- A message is returned exactly if the data is one, or is a text that JSON.parse makes one of, and
  -- it is that message.
  pub parse_protocol_message_iff :
      (input w : Value)
      → (parse_protocol_message date_parses json_parse input ≡ returned w) ↔ (
          (fs : Fields) × (w ≡ obj fs)
          × IsMessage date_parses fs
          × ((input ≡ obj fs) ⊎ ((s : String) × (input ≡ str s) × (json_parse s ≡ some (obj fs)))))
  unfolding parse_protocol_message IsParsed
  parse_protocol_message_iff input w =
      let read = parse_json_message date_parses json_parse input in
      (
        λ e.
            let (fs, here, there, m) = then_assert_forth read w e in
            (fs, there, m, (parse_json_message-Holds input fs).0 here),
        λ (fs, there, m, held).
            then_assert_back read w (fs, (parse_json_message-Holds input fs).1 held, there, m),
      )
