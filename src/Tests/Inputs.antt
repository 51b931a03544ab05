-- ===== src/Tests/Inputs.antt =====
-- Concrete inputs that the tests share.
use openclaw_sip_voice.Base.{Bool, String, ◌==◌, none}
use openclaw_sip_voice.Protocol.Pattern.{
  is_lower, is_upper, is_digit, is_alnum, is_id_char, all_chars, is_run, call_id_re, command_id_re,
  first_and_rest, remote_handle_re, base64_re, is_base64_char, data_count, decoded_length,
}
use openclaw_sip_voice.Protocol.Validators.{includes_t}
use openclaw_sip_voice.Protocol.Builders.{CommandOptions, Fallbacks}

-- A name for the tests of texts that the validators compute with.
unfoldable pub texts : Unit {0}
unfolding is_lower is_upper is_digit is_alnum is_id_char all_chars is_run call_id_re command_id_re
    first_and_rest remote_handle_re base64_re is_base64_char data_count decoded_length includes_t
texts = tt

abbrev pub noon : String
noon = "2026-05-01T12:00:00.000Z"

-- A parser of dates that knows one of them.
abbrev pub parses : String → Bool
parses s = s == noon

abbrev pub defaults : Fallbacks
defaults = record { new_command_id = "cmd_000001"; now = noon }

abbrev pub no_options : CommandOptions
no_options = record { command_id = none; sent_at = none }
