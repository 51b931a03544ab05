-- ===== src/Protocol/Value.antt =====
-- JavaScript values, as `unknown` in plugin/src/protocol.ts ranges over them, and the issues that a
-- validator reports. A type that holds a list of itself is a block of three types.
use openclaw_sip_voice.Base.{
  ℕ, suc, Bool, true, false, String, List, [], ◌∷◌, if◌then◌else◌, ◌==◌, ◌||◌,
}

-- `nat n` is n and `neg n` is -(n + 1). `frac negative whole tag` is a finite number with a
-- fractional part: its sign, its integer part, and a tag for the rest.
pub data Number : Type 0 where
  nat neg : ℕ → Number
  frac : Bool → ℕ → ℕ → Number
  infinity minus_infinity nan : Number

mutual
  pub data Value : Type 0 where
    undefined null : Value
    bool : Bool → Value
    num : Number → Value
    str : String → Value
    obj : Fields → Value
    arr : Items → Value

  pub data Items : Type 0 where
    nil : Items
    cons : Value → Items → Items

  -- The own properties of an object, in the order of `Object.keys`.
  pub data Fields : Type 0 where
    end : Fields
    field : String → Value → Fields → Fields

-- Object.keys
abbrev pub keys : Fields → List String
keys end = []
keys (field k v fs) = k ∷ keys fs

-- value[key]; a key that is not there reads `undefined`.
unfoldable pub get : String → Fields → Value
get key end = undefined
get key (field k v fs) = if k == key then v else get key fs

unfoldable pub has_own : Fields → String → Bool
has_own end key = false
has_own (field k v fs) key = k == key || has_own fs key

unfoldable pub is_plain_object : Value → Bool
is_plain_object (obj fs) = true
is_plain_object _ = false

-- asRecord: what is no plain object reads as an empty one.
unfoldable pub as_record : Value → Fields
as_record (obj fs) = fs
as_record _ = end

unfoldable pub item_count : Items → ℕ
item_count nil = 0
item_count (cons v vs) = suc (item_count vs)

-- Where an issue was found: `$`, `at.key` and `at[i]`.
pub data Place : Type 0 where
  root : Place
  key_of : Place → String → Place
  item_of : Place → ℕ → Place

-- The constants that `literal` compares with.
pub data Literal : Type 0 where
  text : String → Literal
  number : ℕ → Literal

-- The texts of the issues, one constructor for each template, with what is put into it.
pub data Message : Type 0 where
  message_must_be_object must_be_object is_required is_not_allowed : Message
  must_be : Literal → Message
  must_be_one_of : List String → Message
  must_be_string must_be_boolean must_be_array must_be_timestamp must_be_versions : Message
  must_be_between : ℕ → ℕ → Message
  must_be_valid : String → Message
  must_be_integer at_most_items : ℕ → Message
  must_be_strict_base64 : Message
  must_decode_to : ℕ → Message
  reason_is_required versions_are_required must_be_fatal must_not_be_retryable : Message
  must_be_version forbidden_field type_must_be_string must_be_json : Message
  unsupported_version unknown_type not_bridge_event not_plugin_command : String → Message

pub record Issue : Type 0 where
  pub place : Place
  pub message : Message

abbrev pub error_at : Place → Message → Issue
error_at place message = record { place = place; message = message }
