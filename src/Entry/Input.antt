-- ===== src/Entry/Input.antt =====
-- plugin/index.ts: the readers of an action's parameters.
pub mod Fits
pub mod Taken
use Prim.Native.String.{◌++◌}
use openclaw_sip_voice.Base.{
  ℕ, ◌+◌, ◌*◌, ◌-◌, Bool, true, false, not, ◌&&◌, String, List, [], ◌∷◌, Option, none, some,
  if◌then◌else◌, ◌==◌, leb, is_empty,
}
use openclaw_sip_voice.Protocol.Value.{Value, undefined, num, str, obj, nat, Number, Fields, get}
use openclaw_sip_voice.Protocol.Pattern.{codes, is_digit, all_chars}
use openclaw_sip_voice.Protocol.Builders.{RemoteParty}
use openclaw_sip_voice.Config.Text.{trim}

-- A value that is read, or the message of the SipVoicePublicInputError that is thrown.
pub data Checked {ℓ} (A : Type ℓ) : Type ℓ where
  given : A → Checked A
  input_error : String → Checked A

infixl 5 ◌>>=◌
abbrev pub ◌>>=◌ {ℓ κ} : {A : Type ℓ} {B : Type κ} → Checked A → (A → Checked B) → Checked B
given a >>= f = f a
input_error message >>= f = input_error message

-- SIP_VOICE_ACTIONS
pub data SipVoiceAction : Type 0 where
  status tail call speak hangup : SipVoiceAction

-- RemotePartyInput
pub data RemotePartyInput : Type 0 where
  handle_only : String → RemotePartyInput
  party : RemoteParty → RemotePartyInput

-- asRecord
unfoldable pub as_record : Value → Checked Fields
as_record (obj fs) = given fs
as_record _ = input_error "parameters must be a JSON object"

-- The rest of optionalNonEmptyString for a text, after `trim`.
unfoldable pub non_empty : String → String → Checked (Option String)
non_empty trimmed field_name =
    if trimmed == "" then input_error (field_name ++ " must not be empty") else given (some trimmed)

unfoldable pub optional_non_empty_string : Value → String → Checked (Option String)
unfolding non_empty
optional_non_empty_string undefined field_name = given none
optional_non_empty_string (str s) field_name = non_empty (trim s) field_name
optional_non_empty_string _ field_name = input_error (field_name ++ " must be a string")

abbrev pub or_required : String → Option String → Checked String
or_required field_name none = input_error (field_name ++ " is required")
or_required field_name (some s) = given s

unfoldable pub required_non_empty_string : Value → String → Checked String
required_non_empty_string v field_name =
    optional_non_empty_string v field_name >>= or_required field_name

unfoldable pub read_action_text : String → Checked SipVoiceAction
read_action_text s =
    if s == "status"
    then given status
    else if s == "tail"
    then given tail
    else if s == "call"
    then given call
    else if s == "speak"
    then given speak
    else if s == "hangup"
    then given hangup
    else input_error ("unsupported action: " ++ s)

unfoldable pub read_action_value : Value → Checked SipVoiceAction
unfolding read_action_text
read_action_value undefined = given status
read_action_value (str s) = read_action_text s
read_action_value _ = input_error "action must be a string"

unfoldable pub read_action : Fields → Checked SipVoiceAction
unfolding read_action_value
read_action params = read_action_value (get "action" params)

unfoldable pub read_tail_limit : Value → Checked (Option Number)
read_tail_limit undefined = given none
read_tail_limit (num (nat n)) =
    if leb n 50 then given (some (nat n)) else input_error "limit must be an integer from 0 to 50"
read_tail_limit _ = input_error "limit must be an integer from 0 to 50"

-- The end of readRemoteParty, for `remote` without `target`.
unfoldable pub read_remote : Fields → Checked RemotePartyInput
read_remote remote = do
  handle ← required_non_empty_string (get "handle" remote) "remote.handle"
  display_name ← optional_non_empty_string (get "displayName" remote) "remote.displayName"
  given (party (record { handle = handle; display_name = display_name }))

unfoldable pub choose_remote : Option String → Value → Checked RemotePartyInput
unfolding as_record read_remote
choose_remote (some target) undefined = given (handle_only target)
choose_remote (some target) remote = input_error "provide either target or remote, not both"
choose_remote none undefined = input_error "target or remote is required"
choose_remote none remote = as_record remote >>= read_remote

unfoldable pub read_remote_party : Fields → Checked RemotePartyInput
unfolding choose_remote
read_remote_party params = do
  target ← optional_non_empty_string (get "target" params) "target"
  choose_remote target (get "remote" params)

-- Number(value), of decimal digits
unfoldable pub number_of_digits : ℕ → List ℕ → ℕ
number_of_digits n [] = n
number_of_digits n (c ∷ cs) = number_of_digits (10 * n + (c - b'0')) cs

-- The `limit` of the command line: /^\d+$/, and then readTailLimit.
unfoldable pub parse_cli_limit : Option String → Checked (Option Number)
unfolding read_tail_limit
parse_cli_limit none = given none
parse_cli_limit (some s) =
    if not (is_empty (codes s)) && all_chars is_digit (codes s)
    then read_tail_limit (num (nat (number_of_digits 0 (codes s))))
    else input_error "limit must be an integer from 0 to 50"
