-- ===== src/Protocol/Messages/Directions.antt =====
-- plugin/src/protocol.ts: events and commands are two kinds of message, and the types for which the
-- validator throws.
use openclaw_sip_voice.Base.{
  ◌≡◌, refl, ◌↔◌, ◌⊎◌, inl, inr, ◌≢◌, Bool, true, false, String, List, [], ◌∷◌, Option, none, some,
}
use openclaw_sip_voice.Protocol.Value.{Value, str, obj, Fields, get, Issue}
use openclaw_sip_voice.Protocol.Validators.{includes}
use openclaw_sip_voice.Protocol.Specs.Commands.{
  inherited_names, bridge_event_types, plugin_command_types, find_spec, SpecLookup, own, inherited,
  missing,
}
use openclaw_sip_voice.Protocol.Messages.{
  Result, valid, failed, throws, validation_failure, conclude, foreign_version, early_issues,
  validate_as, validate_typed, validate_object, validate_protocol_message, is_type_in, restrict,
  validate_bridge_event, validate_plugin_command,
}
use openclaw_sip_voice.Protocol.Messages.Types.{
  includes-disjoint, disjoint, known_type, find_spec-eq-inherited,
}
use openclaw_sip_voice.Protocol.Messages.Validity.{
  IsMessage, IsMessage-valid, validate_protocol_message_complete,
}

-- A result that is a refusal.
abbrev pub IsRefused : Result → Type 0
IsRefused (failed e errors) = Unit
IsRefused _ = ⊥

events_are_no_commands :
    (type : String)
    → includes bridge_event_types type ≡ true
    → includes plugin_command_types type ≡ false
unfolding disjoint includes
events_are_no_commands type h =
    includes-disjoint bridge_event_types plugin_command_types type refl h

commands_are_no_events :
    (type : String)
    → includes plugin_command_types type ≡ true
    → includes bridge_event_types type ≡ false
unfolding disjoint includes
commands_are_no_events type h =
    includes-disjoint plugin_command_types bridge_event_types type refl h

conclude-ne-throws : (fs : Fields) (errors : List Issue) → conclude fs errors ≢ throws
unfolding conclude
conclude-ne-throws fs [] e = cc
conclude-ne-throws fs (x ∷ errors) e = cc

throws_lookup :
    (fs : Fields) (errors : List Issue) (type : String) (l : SpecLookup)
    → validate_as fs errors type l ≡ throws
    → l ≡ inherited
unfolding validate_as
throws_lookup fs errors type (own spec) e = absurd (conclude-ne-throws fs _ e)
throws_lookup fs errors type inherited e = refl
throws_lookup fs errors type missing e = cc

-- What the validator throws on.
abbrev pub IsInheritedType : Fields → Type 0
IsInheritedType fs =
    (foreign_version (get "protocolVersion" fs) ≡ none)
    × ((type : String) × (get "type" fs ≡ str type) × (includes inherited_names type ≡ true))

module _ (date_parses : String → Bool) where
  bridge_event_of :
      (fs : Fields)
      → (m : IsMessage date_parses fs) → includes bridge_event_types m.type ≡ true
      → validate_bridge_event date_parses (obj fs) ≡ valid (obj fs)
  unfolding validate_bridge_event restrict is_type_in
  bridge_event_of fs m h = rw (validate_protocol_message_complete date_parses fs m, m.typed, h)

  command_of :
      (fs : Fields)
      → (m : IsMessage date_parses fs) → includes plugin_command_types m.type ≡ true
      → validate_plugin_command date_parses (obj fs) ≡ valid (obj fs)
  unfolding validate_plugin_command restrict is_type_in
  command_of fs m h = rw (validate_protocol_message_complete date_parses fs m, m.typed, h)

  no_bridge_event_of :
      (fs : Fields)
      → (m : IsMessage date_parses fs) → includes bridge_event_types m.type ≡ false
      → IsRefused (validate_bridge_event date_parses (obj fs))
  unfolding validate_bridge_event restrict is_type_in validation_failure
  no_bridge_event_of fs m h =
      rw (validate_protocol_message_complete date_parses fs m, m.typed, h) tt

  no_command_of :
      (fs : Fields)
      → (m : IsMessage date_parses fs) → includes plugin_command_types m.type ≡ false
      → IsRefused (validate_plugin_command date_parses (obj fs))
  unfolding validate_plugin_command restrict is_type_in validation_failure
  no_command_of fs m h = rw (validate_protocol_message_complete date_parses fs m, m.typed, h) tt

  -- Every message goes in one direction: it is accepted as a bridge event and refused as a command,
  -- or refused as a bridge event and accepted as a command.
  pub message_has_one_direction :
      (fs : Fields)
      → validate_protocol_message date_parses (obj fs) ≡ valid (obj fs)
      → ((validate_bridge_event date_parses (obj fs) ≡ valid (obj fs))
          × IsRefused (validate_plugin_command date_parses (obj fs)))
        ⊎ (IsRefused (validate_bridge_event date_parses (obj fs))
            × (validate_plugin_command date_parses (obj fs) ≡ valid (obj fs)))
  message_has_one_direction fs e =
      let m = IsMessage-valid date_parses fs e in
      elim (known_type date_parses m.type m.known) [
        | inl event ↦
            inl
              (bridge_event_of fs m event, no_command_of fs m (events_are_no_commands m.type event))
        | inr command ↦ inr (
          no_bridge_event_of fs m (commands_are_no_events m.type command),
          command_of fs m command,
        )
      ]

  throws_typed :
      (fs : Fields) (t : Value)
      → validate_typed date_parses fs (early_issues fs) t ≡ throws
      → (type : String) × (t ≡ str type) × (includes inherited_names type ≡ true)
  unfolding validate_typed
  throws_typed fs (str type) e = (
    type,
    refl,
    (find_spec-eq-inherited date_parses type).0
        (throws_lookup fs (early_issues fs) type (find_spec date_parses type) e),
  )
  throws_typed fs _ e = cc

  throws_object :
      (fs : Fields) (o : Option String)
      → validate_object date_parses fs o ≡ throws
      → (o ≡ none)
        × ((type : String) × (get "type" fs ≡ str type) × (includes inherited_names type ≡ true))
  unfolding validate_object
  throws_object fs none e = (refl, throws_typed fs (get "type" fs) e)
  throws_object fs (some received) e = cc

  throws_forth :
      (v : Value)
      → validate_protocol_message date_parses v ≡ throws
      → (fs : Fields) × (v ≡ obj fs) × IsInheritedType fs
  unfolding validate_protocol_message
  throws_forth (obj fs) e = (fs, refl, throws_object fs _ e)
  throws_forth _ e = cc

  throws_back :
      (fs : Fields) → IsInheritedType fs → validate_protocol_message date_parses (obj fs) ≡ throws
  unfolding validate_protocol_message validate_object validate_typed validate_as
  throws_back fs (version, (type, typed, known)) =
      rw (version, typed, (find_spec-eq-inherited date_parses type).1 known)

  -- The validator throws a TypeError, in place of a result, exactly on the objects without a foreign
  -- version whose type is the name of a property of Object.prototype.
  pub validate_protocol_message_throws_iff :
      (v : Value)
      → (validate_protocol_message date_parses v ≡ throws)
        ↔ ((fs : Fields) × (v ≡ obj fs) × IsInheritedType fs)
  validate_protocol_message_throws_iff v =
      (throws_forth v, λ (fs, here, h). rw here (throws_back fs h))
