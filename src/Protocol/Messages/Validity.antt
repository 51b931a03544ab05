-- ===== src/Protocol/Messages/Validity.antt =====
-- plugin/src/protocol.ts: which values are accepted as messages, events and commands.
use openclaw_sip_voice.Base.{
  ◌≡◌, refl, sym, ap, ◌∙◌, ◌↔◌, Bool, true, String, List, [], ◌∷◌, ◌++◌, Option, none, some, map,
  eq_iff,
}
use openclaw_sip_voice.Protocol.Value.{
  Value, str, obj, Fields, get, root, key_of, text, error_at, forbidden_field, must_be_version,
  Issue,
}
use openclaw_sip_voice.Protocol.Validators.{ObjectSpec, check, is_literal, validate_exact_object}
use openclaw_sip_voice.Protocol.Validators.Exact.{
  append-eq-nil, check-eq-nil, Conforms, validate_exact_object_iff,
}
use openclaw_sip_voice.Protocol.Specs.Commands.{SpecLookup, own, find_spec}
use openclaw_sip_voice.Protocol.Messages.{
  valid, conclude, collect_forbidden_field_names, foreign_version, early_issues, validate_as,
  validate_typed, validate_object, validate_protocol_message,
}

-- What a protocol message is: an object of the current version, with no forbidden field name at any
-- depth, that conforms exactly to the spec of its type.
pub record IsMessage (date_parses : String → Bool) (fs : Fields) : Type 0 where
  pub version : get "protocolVersion" fs ≡ str "1.0"
  pub clean : collect_forbidden_field_names (obj fs) root ≡ []
  pub type : String
  pub typed : get "type" fs ≡ str type
  pub spec : ObjectSpec
  pub known : find_spec date_parses type ≡ own spec
  pub conforms : Conforms spec root fs

map-eq-nil {ℓ κ} : {A : Type ℓ} {B : Type κ} (f : A → B) (xs : List A) → (map f xs ≡ []) ↔ (xs ≡ [])
map-eq-nil f [] = (λ _. refl, λ _. refl)
map-eq-nil f (x ∷ xs) = (λ e. cc, λ e. cc)

pub eq-str_of_is_literal : (s : String) (v : Value) → is_literal (text s) v ≡ true → v ≡ str s
unfolding is_literal
eq-str_of_is_literal s (str t) h = ap str (sym ((eq_iff s t).0 h))
eq-str_of_is_literal s _ h = cc

pub is_literal-str : (s : String) {v : Value} → v ≡ str s → is_literal (text s) v ≡ true
unfolding is_literal
is_literal-str s e = rw e ((eq_iff s s).1 refl)

-- Before the type: nothing is wrong exactly if the version is right and no name is forbidden.
early_issues-eq-nil :
    (fs : Fields)
    → (early_issues fs ≡ []) ↔ (
        (get "protocolVersion" fs ≡ str "1.0") × (collect_forbidden_field_names (obj fs) root ≡ []))
unfolding early_issues
early_issues-eq-nil fs =
    let split =
      append-eq-nil
        (check (is_literal (text "1.0") (get "protocolVersion" fs)) (key_of root "protocolVersion")
          must_be_version)
        (map (λ at. error_at at forbidden_field) (collect_forbidden_field_names (obj fs) root)) in
    let one = check-eq-nil (is_literal (text "1.0") (get "protocolVersion" fs)) _ _ in
    let two =
      map-eq-nil (λ at. error_at at forbidden_field)
        (collect_forbidden_field_names (obj fs) root) in
    (
      λ e. let t = split.0 e in (eq-str_of_is_literal "1.0" _ (one.0 t.0), two.0 t.1),
      λ h. split.1 (one.1 (is_literal-str "1.0" h.0), two.1 h.1),
    )

conclude-eq-valid :
    (fs : Fields) (errors : List Issue) {w : Value}
    → conclude fs errors ≡ valid w
    → (errors ≡ []) × (w ≡ obj fs)
unfolding conclude
conclude-eq-valid fs [] e = (refl, cc)
conclude-eq-valid fs (x ∷ errors) e = cc

-- `found` is what the lookup of the type finds.
validate_as-eq-valid :
    (fs : Fields) (errors : List Issue) (type : String) (found : SpecLookup) {w : Value}
    → validate_as fs errors type found ≡ valid w
    → (spec : ObjectSpec) × (found ≡ own spec)
      × (errors ≡ [])
      × Conforms spec root fs
      × (w ≡ obj fs)
unfolding validate_as
validate_as-eq-valid fs errors type (own spec) e =
    let t = conclude-eq-valid fs (errors ++ validate_exact_object spec (obj fs) root) e in
    let u = (append-eq-nil errors _).0 t.0 in
    (spec, refl, u.0, (validate_exact_object_iff spec fs root).0 u.1, t.1)
validate_as-eq-valid fs errors type _ e = cc

module _ (date_parses : String → Bool) where
  IsMessage-typed :
      (fs : Fields) (t : Value) {w : Value}
      → get "type" fs ≡ t
      → validate_typed date_parses fs (early_issues fs) t ≡ valid w
      → IsMessage date_parses fs × (w ≡ obj fs)
  unfolding validate_typed
  IsMessage-typed fs (str type) g e =
      let (spec, known, early, conforms, same) =
        validate_as-eq-valid fs (early_issues fs) type (find_spec date_parses type) e in
      let u = (early_issues-eq-nil fs).0 early in
      (
        record {
          version = u.0;
          clean = u.1;
          type = type;
          typed = g;
          spec = spec;
          known = known;
          conforms = conforms;
        },
        same,
      )
  IsMessage-typed fs _ g e = cc

  foreign_version-str : (fs : Fields) {v : Value} → v ≡ str "1.0" → foreign_version v ≡ none
  unfolding foreign_version
  foreign_version-str fs e = rw e

  validate_object-eq-valid :
      (fs : Fields) (o : Option String) {w : Value}
      → validate_object date_parses fs o ≡ valid w
      → IsMessage date_parses fs × (w ≡ obj fs)
  unfolding validate_object
  validate_object-eq-valid fs (some received) e = cc
  validate_object-eq-valid fs none e = IsMessage-typed fs (get "type" fs) refl e

  pub validate_protocol_message_sound :
      (v w : Value)
      → validate_protocol_message date_parses v ≡ valid w
      → (fs : Fields) × (v ≡ obj fs) × (w ≡ obj fs) × IsMessage date_parses fs
  unfolding validate_protocol_message
  validate_protocol_message_sound (obj fs) w e =
      let t = validate_object-eq-valid fs _ e in (fs, refl, t.1, t.0)
  validate_protocol_message_sound _ w e = cc

  pub validate_protocol_message_complete :
      (fs : Fields)
      → IsMessage date_parses fs
      → validate_protocol_message date_parses (obj fs) ≡ valid (obj fs)
  unfolding validate_protocol_message validate_object validate_typed validate_as conclude
  validate_protocol_message_complete fs m = rw (
    foreign_version-str fs m.version,
    m.typed,
    m.known,
    (early_issues-eq-nil fs).1 (m.version, m.clean),
    (validate_exact_object_iff m.spec fs root).1 m.conforms,
  )

  -- Exactly the messages are accepted, and they are returned as they are.
  pub validate_protocol_message_iff :
      (v w : Value)
      → (validate_protocol_message date_parses v ≡ valid w)
        ↔ ((fs : Fields) × (v ≡ obj fs) × (w ≡ v) × IsMessage date_parses fs)
  validate_protocol_message_iff v w = (
    λ e.
        let (fs, here, there, m) = validate_protocol_message_sound v w e in
        (fs, here, there ∙ sym here, m),
    λ (fs, here, there, m). rw (there, here) (validate_protocol_message_complete fs m),
  )

  pub IsMessage-valid :
      (fs : Fields)
      → validate_protocol_message date_parses (obj fs) ≡ valid (obj fs)
      → IsMessage date_parses fs
  IsMessage-valid fs e =
      let (gs, here, there, m) = validate_protocol_message_sound (obj fs) (obj fs) e in
      let same : gs ≡ fs = cc in rw same at m
