-- ===== src/Fixtures/Agreement.antt =====
-- validateMessage of protocol/validator.mjs, beside validateProtocolMessage of plugin/src/protocol.ts.
use openclaw_sip_voice.Base.{
  ◌≡◌, refl, ◌↔◌, Bool, true, false, String, List, [], ◌∷◌, Option, none, some, if◌then◌else◌, ◌==◌,
  if_cases,
}
use openclaw_sip_voice.Protocol.Value.{Value, str, obj, Fields, root, Issue}
use openclaw_sip_voice.Protocol.Validators.{ObjectSpec, includes, validate_exact_object}
use openclaw_sip_voice.Protocol.Validators.Exact.{append-eq-nil}
use openclaw_sip_voice.Protocol.Specs.Commands as Co
use openclaw_sip_voice.Protocol.Specs.Commands.{
  SpecLookup, own, inherited, missing, inherited_names, find_in, find_spec as plugin_find_spec,
}
use openclaw_sip_voice.Protocol.Messages.{
  Result, valid, failed, throws, conclude, early_issues, validate_as, validate_typed,
  validate_object, validate_protocol_message, validation_failure, create_validation_error,
  unsupported_protocol_version_failure,
}
use openclaw_sip_voice.Fixtures.Alike.{validate_exact_object-Alike}
use openclaw_sip_voice.Fixtures.Errors.{NoRepeat, error_spec_iff}
use openclaw_sip_voice.Fixtures.Commands.{message_specs, find_spec}
use openclaw_sip_voice.Fixtures.Messages.{
  Verdict, passed, refused, type_error_thrown, failure, unsupported_failure, errors_before_type,
  finish, with_spec, with_type, with_version, validate_message,
}
use openclaw_sip_voice.Fixtures.SameSpecs.{
  Same, Same-of_eq, audio_in_specs, audio_out_specs, same_text,
}

-- What two lookups find.
abbrev SameLookup : Fields → SpecLookup → SpecLookup → Type 0
SameLookup fs (own s) (own t) = Same fs s t
SameLookup fs inherited inherited = Unit
SameLookup fs missing missing = Unit
SameLookup fs _ _ = ⊥

-- Tables with the same names in the same order.
abbrev SameTable : Fields → List (String × ObjectSpec) → List (String × ObjectSpec) → Type 0
SameTable fs [] [] = Unit
SameTable fs ((k, s) ∷ ps) ((l, t) ∷ qs) = (k ≡ l) × Same fs s t × SameTable fs ps qs
SameTable fs _ _ = ⊥

either_lookup :
    (fs : Fields) (b : Bool) (s t : ObjectSpec) (x y : SpecLookup)
    → Same fs s t
    → SameLookup fs x y
    → SameLookup fs (if b then own s else x) (if b then own t else y)
either_lookup fs true s t x y a h = a
either_lookup fs false s t x y a h = h

find_in-SameLookup :
    (fs : Fields) (type : String) (ps qs : List (String × ObjectSpec))
    → SameTable fs ps qs
    → SameLookup fs (find_in type ps) (find_in type qs)
find_in-SameLookup fs type [] [] h =
    if_cases (λ x. SameLookup fs x x) (includes inherited_names type) (λ _. tt) (λ _. tt)
find_in-SameLookup fs type [] (_ ∷ qs) h = elim h [ ]
find_in-SameLookup fs type ((k, s) ∷ ps) [] h = elim h [ ]
find_in-SameLookup fs type ((k, s) ∷ ps) ((l, t) ∷ qs) (e, a, h) =
    rw e (either_lookup fs (l == type) s t _ _ a (find_in-SameLookup fs type ps qs h))

module _ (date_parses : String → Bool) where
  tables_same :
      (fs : Fields)
      → NoRepeat fs
      → SameTable fs (Co.message_specs date_parses) (message_specs date_parses)
  unfolding Co.message_specs message_specs
  tables_same fs n =
      let (hello, status, start, ended, get_status, answer, dial, clear, hangup) =
        same_text date_parses in
      (
        refl,
        Same-of_eq fs hello,
        (
          refl,
          Same-of_eq fs status,
          (
            refl,
            Same-of_eq fs start,
            (
              refl,
              validate_exact_object-Alike _ _ (audio_in_specs date_parses) (obj fs) root,
              (
                refl,
                Same-of_eq fs ended,
                (
                  refl,
                  error_spec_iff date_parses fs root n,
                  (
                    refl,
                    Same-of_eq fs get_status,
                    (
                      refl,
                      Same-of_eq fs answer,
                      (
                        refl,
                        Same-of_eq fs dial,
                        (
                          refl,
                          validate_exact_object-Alike _ _ (audio_out_specs date_parses) (obj fs)
                              root,
                          (refl, Same-of_eq fs clear, (refl, Same-of_eq fs hangup, tt)),
                        ),
                      ),
                    ),
                  ),
                ),
              ),
            ),
          ),
        ),
      )

-- The validators agree: both accept, both throw a TypeError, or both refuse with the same code and
-- the same word on whether that is fatal.
abbrev pub Agree : Verdict → Result → Type 0
Agree passed (valid v) = Unit
Agree type_error_thrown throws = Unit
Agree (refused r) (failed e errors) =
    (r.code ≡ e.code)
    × (r.fatal ≡ e.fatal)
    × (r.close_code ≡ e.close_code)
    × (r.expected_protocol_versions ≡ e.expected_protocol_versions)
Agree _ _ = ⊥

finish-Agree :
    (fs : Fields) (xs ys : List Issue) → (ys ≡ []) ↔ (xs ≡ []) → Agree (finish xs) (conclude fs ys)
unfolding finish failure conclude validation_failure create_validation_error
finish-Agree fs [] [] h = tt
finish-Agree fs (x ∷ xs) (y ∷ ys) h = (refl, refl, refl, refl)
finish-Agree fs [] (y ∷ ys) h = absurd (cc (h.1 refl))
finish-Agree fs (x ∷ xs) [] h = absurd (cc (h.0 refl))

with_spec-Agree :
    (fs : Fields) (errors : List Issue) (type : String) (x y : SpecLookup)
    → SameLookup fs y x
    → Agree (with_spec fs errors type x) (validate_as fs errors type y)
unfolding with_spec validate_as failure validation_failure create_validation_error
with_spec-Agree fs errors type (own s) (own t) h =
    let mine = append-eq-nil errors (validate_exact_object s (obj fs) root) in
    let theirs = append-eq-nil errors (validate_exact_object t (obj fs) root) in
    finish-Agree fs _ _ (
      λ e. let u = theirs.0 e in mine.1 (u.0, h.0 u.1),
      λ e. let u = mine.0 e in theirs.1 (u.0, h.1 u.1),
    )
with_spec-Agree fs errors type inherited inherited h = tt
with_spec-Agree fs errors type missing missing h = (refl, refl, refl, refl)
with_spec-Agree fs errors type (own s) inherited h = elim h [ ]
with_spec-Agree fs errors type (own s) missing h = elim h [ ]
with_spec-Agree fs errors type inherited (own t) h = elim h [ ]
with_spec-Agree fs errors type inherited missing h = elim h [ ]
with_spec-Agree fs errors type missing (own t) h = elim h [ ]
with_spec-Agree fs errors type missing inherited h = elim h [ ]

-- The keys of an object are distinct, as those of every JavaScript object.
abbrev pub HasKeysOnce : Value → Type 0
HasKeysOnce (obj fs) = NoRepeat fs
HasKeysOnce _ = Unit

module _ (date_parses : String → Bool) (now : String) where
  with_type-Agree :
      (fs : Fields) (errors : List Issue) (v : Value)
      → NoRepeat fs
      → Agree (with_type date_parses now fs errors v) (validate_typed date_parses fs errors v)
  unfolding with_type validate_typed failure validation_failure create_validation_error find_spec
      plugin_find_spec
  with_type-Agree fs errors (str type) n =
      with_spec-Agree fs errors type _ _
        (find_in-SameLookup fs type _ _ (tables_same date_parses fs n))
  with_type-Agree fs errors _ n = (refl, refl, refl, refl)

  with_version-Agree :
      (fs : Fields) (o : Option String)
      → NoRepeat fs
      → Agree (with_version date_parses now fs o) (validate_object date_parses fs o)
  unfolding with_version validate_object unsupported_failure unsupported_protocol_version_failure
      errors_before_type early_issues
  with_version-Agree fs (some received) n = (refl, refl, refl, refl)
  with_version-Agree fs none n = with_type-Agree fs _ _ n

  -- For a value whose keys are distinct, if it is an object, the two validators agree: both accept
  -- it, both throw a TypeError, or both refuse it with the same code, the same word on whether that
  -- is fatal, the same close code and the same expected versions.
  pub validate_message-Agree :
      (v : Value)
      → HasKeysOnce v
      → Agree (validate_message date_parses now v) (validate_protocol_message date_parses v)
  unfolding validate_message validate_protocol_message failure validation_failure
      create_validation_error
  validate_message-Agree (obj fs) n = with_version-Agree fs _ n
  validate_message-Agree _ n = (refl, refl, refl, refl)
