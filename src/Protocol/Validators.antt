-- ===== src/Protocol/Validators.antt =====
-- plugin/src/protocol.ts: the validators. A validator of the source pushes issues on an array; here
-- it returns those it pushes, in order.
pub mod Exact
use openclaw_sip_voice.Base.{
  ℕ, ◌+◌, Bool, true, false, ◌&&◌, ◌||◌, String, List, [], ◌∷◌, ◌++◌, Option, none, some,
  if◌then◌else◌, leb, eqb, ◌==◌,
}
use openclaw_sip_voice.Protocol.Value.{
  nat, Value, bool, num, str, arr, obj, Items, nil, cons, Fields, end, field, has_own, item_count,
  Place, Message, key_of, item_of, Literal, text, number, Issue, error_at, must_be_object,
  is_required, is_not_allowed, must_be, must_be_one_of, must_be_string, must_be_boolean,
  must_be_array, must_be_timestamp, must_be_versions, must_be_between, must_be_valid,
  must_be_integer, at_most_items, must_be_strict_base64, must_decode_to,
}
use openclaw_sip_voice.Protocol.Pattern.{codes, units, between, base64_re, decoded_length}

abbrev pub Validator : Type 0
Validator = Value → Place → List Issue

pub record ObjectSpec : Type 0 where
  pub required : List String
  pub optional : List String
  pub properties : List (String × Validator)
  pub after : Fields → Place → List Issue

-- A spec with no `after`.
abbrev pub no_after : Fields → Place → List Issue
no_after fs at = []

-- One issue, unless the test holds.
abbrev pub check : Bool → Place → Message → List Issue
check true at message = []
check false at message = error_at at message ∷ []

-- Set.prototype.has and Array.prototype.includes, of texts.
unfoldable pub includes : List String → String → Bool
includes [] s = false
includes (x ∷ xs) s = x == s || includes xs s

-- spec.properties[key]
unfoldable pub find_validator : String → List (String × Validator) → Option Validator
find_validator key [] = none
find_validator key ((k, v) ∷ vs) = if k == key then some v else find_validator key vs

-- `validator?.(…)`
abbrev pub run_validator : Option Validator → Value → Place → List Issue
run_validator none v at = []
run_validator (some validator) v at = validator v at

-- The loop over `required`.
unfoldable pub missing_keys : List String → Fields → Place → List Issue
missing_keys [] fs at = []
missing_keys (key ∷ ks) fs at =
    check (has_own fs key) (key_of at key) is_required ++ missing_keys ks fs at

-- The loop over `Object.keys(value)`.
unfoldable pub check_fields : ObjectSpec → Fields → Place → List Issue
check_fields spec end at = []
check_fields spec (field k v fs) at =
    (if includes (spec.required ++ spec.optional) k
      then run_validator (find_validator k spec.properties) v (key_of at k)
      else error_at (key_of at k) is_not_allowed ∷ [])
    ++ check_fields spec fs at

unfoldable pub validate_exact_object : ObjectSpec → Validator
validate_exact_object spec (obj fs) at =
    missing_keys spec.required fs at ++ (check_fields spec fs at ++ spec.after fs at)
validate_exact_object spec _ at = error_at at must_be_object ∷ []

unfoldable pub exact_object : ObjectSpec → Validator
exact_object spec value at = validate_exact_object spec value at

-- `value.forEach` with the index from `i`.
unfoldable pub check_items : Validator → ℕ → Items → Place → List Issue
check_items item_validator i nil at = []
check_items item_validator i (cons v vs) at =
    item_validator v (item_of at i) ++ check_items item_validator (i + 1) vs at

unfoldable pub array_of : Validator → ℕ → Validator
array_of item_validator max_items (arr vs) at =
    check (leb (item_count vs) max_items) at (at_most_items max_items)
    ++ check_items item_validator 0 vs at
array_of item_validator max_items _ at = error_at at must_be_array ∷ []

-- value === expected
unfoldable pub is_literal : Literal → Value → Bool
is_literal (text s) (str t) = s == t
is_literal (number n) (num (nat m)) = eqb n m
is_literal _ _ = false

unfoldable pub literal : Literal → Validator
literal expected value at = check (is_literal expected value) at (must_be expected)

-- values.includes(value), where all values are texts
unfoldable pub is_one_of : List String → Value → Bool
is_one_of values (str s) = includes values s
is_one_of values _ = false

unfoldable pub enum_value : List String → Validator
enum_value values value at = check (is_one_of values value) at (must_be_one_of values)

unfoldable pub bounded_string : ℕ → ℕ → Validator
bounded_string lo hi (str s) at = check (between lo hi (units s)) at (must_be_between lo hi)
bounded_string lo hi _ at = error_at at must_be_string ∷ []

unfoldable pub matches : (String → Bool) → Value → Bool
matches pattern (str s) = pattern s
matches pattern _ = false

unfoldable pub pattern_string : (String → Bool) → String → Validator
pattern_string pattern label value at = check (matches pattern value) at (must_be_valid label)

unfoldable pub is_boolean : Value → Bool
is_boolean (bool b) = true
is_boolean _ = false

unfoldable pub boolean_value : Validator
boolean_value value at = check (is_boolean value) at must_be_boolean

-- Number.isInteger(value) && value >= minimum
unfoldable pub is_integer_from : ℕ → Value → Bool
is_integer_from minimum (num (nat n)) = leb minimum n
is_integer_from minimum _ = false

unfoldable pub integer_at_least : ℕ → Validator
integer_at_least minimum value at =
    check (is_integer_from minimum value) at (must_be_integer minimum)

-- value.includes("T")
unfoldable pub includes_t : List ℕ → Bool
includes_t [] = false
includes_t (c ∷ cs) = eqb c b'T' || includes_t cs

-- Whether `Date.parse` gives a number for a text is up to the JavaScript engine, beyond the standard's
-- own format: a parameter.
unfoldable pub timestamp : (String → Bool) → Validator
timestamp date_parses (str s) at =
    check (date_parses s && includes_t (codes s)) at must_be_timestamp
timestamp date_parses _ at = error_at at must_be_timestamp ∷ []

abbrev pub protocol_version : String
protocol_version = "1.0"

unfoldable pub is_version_list : Items → Bool
is_version_list (cons (str s) nil) = s == protocol_version
is_version_list _ = false

unfoldable pub supported_protocol_versions : Validator
supported_protocol_versions (arr vs) at = check (is_version_list vs) at must_be_versions
supported_protocol_versions _ at = error_at at must_be_array ∷ []

abbrev pub audio_payload_base64_chars : ℕ
audio_payload_base64_chars = 216

abbrev pub audio_frame_bytes : ℕ
audio_frame_bytes = 160

unfoldable pub base64_audio_payload : Validator
base64_audio_payload (str s) at =
    if eqb (units s) audio_payload_base64_chars && base64_re (codes s)
    then check (eqb (decoded_length (codes s)) audio_frame_bytes) at
        (must_decode_to audio_frame_bytes)
    else error_at at must_be_strict_base64 ∷ []
base64_audio_payload _ at = error_at at must_be_strict_base64 ∷ []
