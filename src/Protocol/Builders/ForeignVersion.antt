-- ===== src/Protocol/Builders/ForeignVersion.antt =====
-- plugin/src/protocol.ts, buildUnsupportedProtocolVersionErrorEvent, held against the validator.
use Prim.Native.String.{◌++◌}
use openclaw_sip_voice.Base.{◌+◌, ◌≤◌, ◌≡◌, ◌↔◌, Bool, true, ◌&&◌, String, arith}
use text.Mathlib.TextLemmas.{nil-append, cons-append}
use openclaw_sip_voice.Protocol.Value.{as_record}
use openclaw_sip_voice.Protocol.Pattern.{codes, units}
use openclaw_sip_voice.Protocol.Validators.{
  includes_t, bounded_string, boolean_value, is_boolean, supported_protocol_versions,
  is_version_list,
}
use openclaw_sip_voice.Protocol.Specs.Events.{
  error_spec, error_details_spec, error_after, error_details_after, is_bool,
}
use openclaw_sip_voice.Protocol.Messages.{validate_bridge_event, valid}
use openclaw_sip_voice.Protocol.Builders.{build_unsupported_version_error}
use openclaw_sip_voice.Protocol.Builders.Accepted.{validation}

units-append : (s t : String) → units (s ++ t) ≡ units s + units t
units-append String.[] t = rw nil-append (omega arith)
units-append (String.◌∷◌ c s) t = rw cons-append (omega (arith, units-append s t))

module _ (date_parses : String → Bool) where
  -- The event is a valid bridge event exactly if its time is, and the foreign version has at most 130
  -- code units: the message has room for no more behind its text.
  pub build_unsupported_version_error_valid_iff :
      (received sent_at : String)
      → let event = build_unsupported_version_error received sent_at in
        (validate_bridge_event date_parses event ≡ valid event)
        ↔ ((date_parses sent_at && includes_t (codes sent_at) ≡ true) × (units received ≤ 130))
  unfolding validation build_unsupported_version_error error_spec error_details_spec error_after
      error_details_after is_bool bounded_string validate_bridge_event boolean_value is_boolean
      supported_protocol_versions is_version_list as_record
  build_unsupported_version_error_valid_iff received sent_at =
      let n = units-append "Unsupported protocol version: " received in ground arith
