-- ===== src/Fixtures/Run.antt =====
-- protocol/validator.mjs: runFixtureValidation, on the folders of the fixtures. The file system and
-- JSON.parse are parameters.
pub mod Passing
pub mod Result
pub mod Plugin
use Prim.Native.String.{◌++◌ as ◌+++◌}
use openclaw_sip_voice.Base.{
  ℕ, ◌+◌, ◌-◌, ◌*◌, ◌/◌, ◌%◌, Bool, true, false, ◌||◌, ◌&&◌, not, String, List, [], ◌∷◌, ◌++◌,
  Option, none, some, if◌then◌else◌, ltb, eqb, length, is_empty, map,
}
use openclaw_sip_voice.Protocol.Value.{Value, null, Issue}
use openclaw_sip_voice.Protocol.Pattern.{codes}
use openclaw_sip_voice.Protocol.Validators.{includes}
use openclaw_sip_voice.Fixtures.Messages.{
  Refused, Verdict, passed, refused, type_error_thrown, validate_message,
}

pub data Folder : Type 0 where
  valid_fixtures invalid_fixtures : Folder

-- A file that is read and parsed, or the message of the error that either of these throws.
pub data Read : Type 0 where
  parsed : Value → Read
  unreadable : String → Read

-- `listing` is what readdir finds, or `none` if it rejects.
pub record FixtureEnv : Type 0 where
  pub date_parses : String → Bool
  pub now : String
  pub schema : Read
  pub listing : Folder → Option (List String)
  pub read_fixture : Folder → String → Read

-- The texts of a failure, one constructor for each template.
pub data FailureText : Type 0 where
  schema_not_json fixture_not_json missing_required : String → FailureText
  validation_error : Issue → FailureText
  unexpectedly_passed : FailureText

pub record FixtureFailure : Type 0 where
  pub file : String
  pub errors : List FailureText

pub record Report : Type 0 where
  pub ok : Bool
  pub checked : ℕ
  pub failures : List FixtureFailure

abbrev pub required_valid_fixtures : List String
required_valid_fixtures =
    "hello.valid.json" ∷ "status.registered.valid.json" ∷ "status.unregistered.valid.json"
    ∷ "call-start.inbound.valid.json" ∷ "call-start.outbound.valid.json" ∷ "audio-in.valid.json"
    ∷ "audio-out.valid.json" ∷ "audio-clear.valid.json" ∷ "call-end.completed.valid.json"
    ∷ "call-end.error.valid.json" ∷ "error.valid.json" ∷ []

abbrev pub required_invalid_fixtures : List String
required_invalid_fixtures =
    "audio-in.missing-call-id.invalid.json" ∷ "audio-out.invalid-audio-format.invalid.json"
    ∷ "audio-in.invalid-base64-payload.invalid.json"
    ∷ "status.unexpected-sip-credential-field.invalid.json"
    ∷ "hello.unknown-protocol-version.invalid.json" ∷ []

abbrev folder_label : Folder → String
folder_label valid_fixtures = "fixtures/valid"
folder_label invalid_fixtures = "fixtures/invalid"

-- path.join("fixtures", …, fixture), which path.relative gives for the full path too
unfoldable pub file_of : Folder → String → String
file_of folder name = folder_label folder +++ "/" +++ name

abbrev failed_with : String → FailureText → FixtureFailure
failed_with file error = record { file = file; errors = error ∷ [] }

abbrev pub same_codes : List ℕ → List ℕ → Bool
same_codes [] [] = true
same_codes (a ∷ cs) (b ∷ bs) = eqb a b && same_codes cs bs
same_codes _ _ = false

-- file.endsWith(".json"), on the code points
unfoldable pub ends_with : List ℕ → List ℕ → Bool
ends_with suffix [] = same_codes suffix []
ends_with suffix (c ∷ cs) = same_codes suffix (c ∷ cs) || ends_with suffix cs

-- The UTF-16 code units of a text, by which `sort` compares.
unfoldable pub code_units : List ℕ → List ℕ
code_units [] = []
code_units (c ∷ cs) =
    if ltb c 0x10000
    then c ∷ code_units cs
    else (0xD800 + (c - 0x10000) / 1024) ∷ (0xDC00 + (c - 0x10000) % 1024) ∷ code_units cs

unfoldable pub precedes : List ℕ → List ℕ → Bool
precedes [] bs = true
precedes (a ∷ cs) [] = false
precedes (a ∷ cs) (b ∷ bs) = if eqb a b then precedes cs bs else ltb a b

unfoldable pub insert_name : String → List String → List String
insert_name name [] = name ∷ []
insert_name name (other ∷ names) =
    if precedes (code_units (codes name)) (code_units (codes other))
    then name ∷ other ∷ names
    else other ∷ insert_name name names

unfoldable pub sort_names : List String → List String
sort_names [] = []
sort_names (name ∷ names) = insert_name name (sort_names names)

unfoldable pub json_names : List String → List String
json_names [] = []
json_names (name ∷ names) =
    if ends_with (codes ".json") (codes name) then name ∷ json_names names else json_names names

-- jsonFiles, of what readdir found
unfoldable pub json_files : List String → List String
json_files names = sort_names (json_names names)

-- requireFixtureNames
unfoldable pub require_fixture_names : Folder → List String → List String → List FixtureFailure
require_fixture_names folder actual [] = []
require_fixture_names folder actual (name ∷ names) =
    (if includes actual name
      then []
      else failed_with (folder_label folder) (missing_required name) ∷ [])
    ++ require_fixture_names folder actual names

unfoldable pub schema_failures : Read → List FixtureFailure
schema_failures (parsed v) = []
schema_failures (unreadable message) =
    failed_with "schemas/message.schema.json" (schema_not_json message) ∷ []

infixl 5 ◌>>=◌
-- The rest of a function, if nothing was thrown so far.
abbrev pub ◌>>=◌ {ℓ κ} : {A : Type ℓ} {B : Type κ} → Option A → (A → Option B) → Option B
none >>= f = none
some a >>= f = f a

-- What the two loops make of a verdict; `none` if validateMessage throws.
unfoldable pub judged : Folder → String → Verdict → Option (List FixtureFailure)
judged folder name type_error_thrown = none
judged valid_fixtures name passed = some []
judged valid_fixtures name (refused r) =
    some
      (record { file = file_of valid_fixtures name; errors = map validation_error r.errors } ∷ [])
judged invalid_fixtures name passed =
    some (failed_with (file_of invalid_fixtures name) unexpectedly_passed ∷ [])
judged invalid_fixtures name (refused r) = some []

module _ (env : FixtureEnv) where
  -- readJsonFixture, and the rest of the loop: `null` is passed over.
  unfoldable pub check_fixture : Folder → String → Read → Option (List FixtureFailure)
  check_fixture folder name (unreadable message) =
      some (failed_with (file_of folder name) (fixture_not_json message) ∷ [])
  check_fixture folder name (parsed null) = some []
  check_fixture folder name (parsed v) =
      judged folder name (validate_message env.date_parses env.now v)

  -- One of the two loops; an exception ends it.
  unfoldable pub check_fixtures : Folder → List String → Option (List FixtureFailure)
  check_fixtures folder [] = some []
  check_fixtures folder (name ∷ names) = do
    here ← check_fixture folder name (env.read_fixture folder name)
    rest ← check_fixtures folder names
    some (here ++ rest)

  -- The end of runFixtureValidation.
  unfoldable pub fixture_report : List String → List String → Option Report
  fixture_report valids invalids = do
    of_valids ← check_fixtures valid_fixtures valids
    of_invalids ← check_fixtures invalid_fixtures invalids
    let failures =
        schema_failures env.schema
        ++ require_fixture_names valid_fixtures valids required_valid_fixtures
        ++ require_fixture_names invalid_fixtures invalids required_invalid_fixtures
        ++ of_valids
        ++ of_invalids
    some (record {
      ok = is_empty failures;
      checked = length valids + length invalids;
      failures = failures;
    })

  -- runFixtureValidation; `none` if its promise rejects.
  unfoldable pub run_fixture_validation : Option Report
  run_fixture_validation = do
    valids ← env.listing valid_fixtures
    invalids ← env.listing invalid_fixtures
    fixture_report (json_files valids) (json_files invalids)
