-- ===== src/Protocol/Messages/Failures.antt =====
-- plugin/src/protocol.ts: how a value is refused. What a refusal carries, which one is fatal, and the
-- types for which the validator throws.
use openclaw_sip_voice.Base.{
  ◌≡◌, refl, ap, ◌∙◌, ◌↔◌, ◌⊎◌, inl, inr, ◌≢◌, Bool, true, false, String, List, [], ◌∷◌, ◌++◌,
  Option, none, some, arith, eq_iff,
}
use openclaw_sip_voice.Protocol.Value.{
  Value, str, obj, Fields, get, root, key_of, Issue, error_at, unknown_type, type_must_be_string,
}
use openclaw_sip_voice.Protocol.Specs.Commands.{SpecLookup, own, inherited, missing}
use openclaw_sip_voice.Protocol.Messages.{
  unsupported_protocol_version, validation_failed, ValidationError, Result, failed,
  validation_failure, unsupported_protocol_version_failure, conclude, foreign_version, early_issues,
  validate_as, validate_typed, validate_object, validate_protocol_message,
}

-- What a refusal looks like: a foreign version is fatal and closes the connection with 1002; anything
-- else is neither. The error holds the issues that are returned beside it, at least one.
pub record Refusal (e : ValidationError) (errors : List Issue) : Type 0 where
  pub same_errors : e.errors ≡ errors
  pub some_error : errors ≢ []
  pub kind :
      ((e.code ≡ unsupported_protocol_version)
        × (e.fatal ≡ true)
        × (e.close_code ≡ some 1002)
        × (e.expected_protocol_versions ≡ some ("1.0" ∷ [])))
      ⊎ ((e.code ≡ validation_failed)
          × (e.fatal ≡ false)
          × (e.close_code ≡ none)
          × (e.expected_protocol_versions ≡ none))

-- A refusal, if the result is one.
abbrev pub Explains : Result → Type 0
Explains (failed e errors) = Refusal e errors
Explains _ = Unit

validation_failure-Explains :
    (errors : List Issue) → errors ≢ [] → Explains (validation_failure errors)
unfolding validation_failure
validation_failure-Explains errors h = record {
  same_errors = refl;
  some_error = h;
  kind = inr (refl, refl, refl, refl);
}

append-ne-nil : (errors : List Issue) (x : Issue) → errors ++ x ∷ [] ≢ []
append-ne-nil [] x = cc
append-ne-nil (y ∷ errors) x = cc

conclude-Explains : (fs : Fields) (errors : List Issue) → Explains (conclude fs errors)
unfolding conclude
conclude-Explains fs [] = tt
conclude-Explains fs (x ∷ errors) = validation_failure-Explains (x ∷ errors) (cc)

validate_as-Explains :
    (fs : Fields) (errors : List Issue) (type : String) (found : SpecLookup)
    → Explains (validate_as fs errors type found)
unfolding validate_as
validate_as-Explains fs errors type (own spec) = conclude-Explains fs _
validate_as-Explains fs errors type inherited = tt
validate_as-Explains fs errors type missing =
    validation_failure-Explains _
      (append-ne-nil errors (error_at (key_of root "type") (unknown_type type)))

module _ (date_parses : String → Bool) where
  validate_typed-Explains :
      (fs : Fields) (errors : List Issue) (t : Value)
      → Explains (validate_typed date_parses fs errors t)
  unfolding validate_typed
  validate_typed-Explains fs errors (str type) = validate_as-Explains fs errors type _
  validate_typed-Explains fs errors _ =
      validation_failure-Explains _
        (append-ne-nil errors (error_at (key_of root "type") type_must_be_string))

  validate_object-Explains :
      (fs : Fields) (o : Option String) → Explains (validate_object date_parses fs o)
  unfolding validate_object
  validate_object-Explains fs (some received) = record {
    same_errors = refl;
    some_error = cc;
    kind = inl (refl, refl, refl, refl);
  }
  validate_object-Explains fs none = validate_typed-Explains fs _ _

  validate_protocol_message-Explains :
      (v : Value) → Explains (validate_protocol_message date_parses v)
  unfolding validate_protocol_message
  validate_protocol_message-Explains (obj fs) = validate_object-Explains fs _
  validate_protocol_message-Explains _ = validation_failure-Explains _ (cc)

  -- Every refusal carries the same issues twice, at least one, and is fatal with close code 1002 if
  -- its code is that of a foreign version, and otherwise not fatal and without a close code.
  pub validate_protocol_message-Refusal :
      (v : Value) {e : ValidationError} {errors : List Issue}
      → validate_protocol_message date_parses v ≡ failed e errors
      → Refusal e errors
  validate_protocol_message-Refusal v h = rw h at (validate_protocol_message-Explains v)

  foreign_version-eq-some :
      (v : Value) {s : String} → foreign_version v ≡ some s → (v ≡ str s) × (s ≢ "1.0")
  unfolding foreign_version
  foreign_version-eq-some (str t) {s} h = ground (arith, eq_iff t "1.0")
  foreign_version-eq-some _ h = cc

  -- Not fatal, if the result is a refusal.
  abbrev IsMild : Result → Type 0
  IsMild (failed e errors) = e.fatal ≡ false
  IsMild _ = Unit

  conclude-IsMild : (fs : Fields) (errors : List Issue) → IsMild (conclude fs errors)
  unfolding conclude
  conclude-IsMild fs [] = tt
  conclude-IsMild fs (x ∷ errors) = refl

  validate_as-IsMild :
      (fs : Fields) (errors : List Issue) (type : String) (found : SpecLookup)
      → IsMild (validate_as fs errors type found)
  unfolding validate_as
  validate_as-IsMild fs errors type (own spec) = conclude-IsMild fs _
  validate_as-IsMild fs errors type inherited = tt
  validate_as-IsMild fs errors type missing = refl

  validate_typed-IsMild :
      (fs : Fields) (errors : List Issue) (t : Value)
      → IsMild (validate_typed date_parses fs errors t)
  unfolding validate_typed
  validate_typed-IsMild fs errors (str type) = validate_as-IsMild fs errors type _
  validate_typed-IsMild fs errors _ = refl

  -- The version decides: without a foreign version no refusal is fatal.
  abbrev IsForeign : Value → Type 0
  IsForeign v =
      (fs : Fields) × (s : String) × (v ≡ obj fs) × (get "protocolVersion" fs ≡ str s) × (s ≢ "1.0")

  object_fatal :
      (fs : Fields) (o : Option String) {e : ValidationError} {errors : List Issue}
      → foreign_version (get "protocolVersion" fs) ≡ o
      → validate_object date_parses fs o ≡ failed e errors
      → e.fatal ≡ true
      → IsForeign (obj fs)
  unfolding validate_object
  object_fatal fs (some s) known h f =
      let t = foreign_version-eq-some (get "protocolVersion" fs) known in (fs, s, refl, t.0, t.1)
  object_fatal fs none known h f =
      let mild = validate_typed-IsMild fs (early_issues fs) (get "type" fs) in
      let mild' = rw h at mild in cc

  fatal_forth :
      (v : Value) {e : ValidationError} {errors : List Issue}
      → validate_protocol_message date_parses v ≡ failed e errors
      → e.fatal ≡ true
      → IsForeign v
  unfolding validate_protocol_message
  fatal_forth (obj fs) h f = object_fatal fs _ refl h f
  fatal_forth _ h f = cc

  foreign_version-str :
      (v : Value) {s : String} → v ≡ str s → s ≢ "1.0" → foreign_version v ≡ some s
  unfolding foreign_version
  foreign_version-str v {s} e h = rw e (ground (arith, eq_iff s "1.0"))

  -- The closed form of a fatal refusal, whatever else the object holds.
  pub validate_protocol_message-foreign :
      (fs : Fields) (s : String)
      → get "protocolVersion" fs ≡ str s
      → s ≢ "1.0"
      → validate_protocol_message date_parses (obj fs) ≡ unsupported_protocol_version_failure s
  unfolding validate_protocol_message validate_object
  validate_protocol_message-foreign fs s e h =
      rw (foreign_version-str (get "protocolVersion" fs) e h)

  -- A value is refused for good exactly if it is an object whose version is a text other than "1.0",
  -- whatever else it holds.
  pub fatal_iff :
      (v : Value)
      → ((e : ValidationError) × (errors : List Issue) × (validate_protocol_message date_parses v
            ≡ failed e errors)
          × (e.fatal ≡ true))
        ↔ ((fs : Fields) × (s : String) × (v ≡ obj fs)
            × (get "protocolVersion" fs ≡ str s)
            × (s ≢ "1.0"))
  unfolding unsupported_protocol_version_failure
  fatal_iff v = (
    λ (e, errors, h, f). fatal_forth v h f,
    λ (fs, s, here, version, other). (
      _,
      _,
      ap (validate_protocol_message date_parses) here
          ∙ validate_protocol_message-foreign fs s version other,
      refl,
    ),
  )
