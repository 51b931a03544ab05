-- ===== src/Protocol/Validators/Exact.antt =====
-- plugin/src/protocol.ts, validateExactObject: when it finds nothing.
use openclaw_sip_voice.Base.{
  ◌≡◌, refl, subst, ◌↔◌, Bool, true, String, List, [], ◌∷◌, ◌++◌, arith, All,
}
use openclaw_sip_voice.Protocol.Value.{
  Value, obj, Fields, end, field, has_own, Place, key_of, Message, is_required,
}
use openclaw_sip_voice.Protocol.Validators.{
  ObjectSpec, check, includes, find_validator, run_validator, missing_keys, check_fields,
  validate_exact_object,
}

pub append-eq-nil {ℓ} : {A : Type ℓ} (xs ys : List A) → (xs ++ ys ≡ []) ↔ ((xs ≡ []) × (ys ≡ []))
append-eq-nil [] ys = (λ e. (refl, e), λ e. e.1)
append-eq-nil (x ∷ xs) ys = (λ e. cc, λ e. cc (e.0))

pub check-eq-nil : (b : Bool) (at : Place) (m : Message) → (check b at m ≡ []) ↔ (b ≡ true)
check-eq-nil b at m = ground arith

-- A property of each field, with its key.
abbrev pub AllFields : (String → Value → Type 0) → Fields → Type 0
AllFields P end = Unit
AllFields P (field k v fs) = P k v × AllFields P fs

-- The field is one that the spec names, and its validator, if there is one, accepts the value.
abbrev pub FieldFits : ObjectSpec → Place → String → Value → Type 0
FieldFits spec at key value =
    (includes (spec.required ++ spec.optional) key ≡ true)
    × (run_validator (find_validator key spec.properties) value (key_of at key) ≡ [])

-- What it means to be an object of the spec, exactly.
pub record Conforms (spec : ObjectSpec) (at : Place) (fs : Fields) : Type 0 where
  pub complete : All (λ key. has_own fs key ≡ true) spec.required
  pub exact : AllFields (FieldFits spec at) fs
  pub after_fits : spec.after fs at ≡ []

missing_keys-eq-nil :
    (ks : List String) (fs : Fields) (at : Place)
    → (missing_keys ks fs at ≡ []) ↔ All (λ key. has_own fs key ≡ true) ks
unfolding missing_keys
missing_keys-eq-nil [] fs at = (λ _. tt, λ _. refl)
missing_keys-eq-nil (k ∷ ks) fs at =
    let split =
      append-eq-nil (check (has_own fs k) (key_of at k) is_required) (missing_keys ks fs at) in
    let one = check-eq-nil (has_own fs k) (key_of at k) is_required in
    let ih = missing_keys-eq-nil ks fs at in
    (λ e. let t = split.0 e in (one.0 t.0, ih.0 t.1), λ h. split.1 (one.1 h.0, ih.1 h.1))

check_fields-eq-nil :
    (spec : ObjectSpec) (fs : Fields) (at : Place)
    → (check_fields spec fs at ≡ []) ↔ AllFields (FieldFits spec at) fs
unfolding check_fields
check_fields-eq-nil spec end at = (λ _. tt, λ _. refl)
check_fields-eq-nil spec (field k v fs) at =
    let ih = check_fields-eq-nil spec fs at in
    let split = append-eq-nil _ (check_fields spec fs at) in
    (λ e. let t = split.0 e in (ground arith, ih.0 t.1), λ h. split.1 (ground arith, ih.1 h.1))

-- The validator finds nothing exactly on the objects that conform to the spec.
pub validate_exact_object_iff :
    (spec : ObjectSpec) (fs : Fields) (at : Place)
    → (validate_exact_object spec (obj fs) at ≡ []) ↔ Conforms spec at fs
unfolding validate_exact_object
validate_exact_object_iff spec fs at =
    let first =
      append-eq-nil (missing_keys spec.required fs at)
        (check_fields spec fs at ++ spec.after fs at) in
    let second = append-eq-nil (check_fields spec fs at) (spec.after fs at) in
    let need = missing_keys-eq-nil spec.required fs at in
    let fit = check_fields-eq-nil spec fs at in
    (
      λ e.
          let t = first.0 e in
          let u = second.0 t.1 in
          record { complete = need.0 t.0; exact = fit.0 u.0; after_fits = u.1 },
      λ c. first.1 (need.1 c.complete, second.1 (fit.1 c.exact, c.after_fits)),
    )

-- The validator finds nothing in a value exactly if it is an object that has all required fields, has
-- only fields that the spec names, each accepted by its validator, and passes the check at the end.
pub validate_exact_object-Conforms :
    (spec : ObjectSpec) (v : Value) (at : Place)
    → (validate_exact_object spec v at ≡ []) ↔ ((fs : Fields) × (v ≡ obj fs) × Conforms spec at fs)
unfolding validate_exact_object
validate_exact_object-Conforms spec (obj fs) at =
    let on = validate_exact_object_iff spec fs at in
    (λ e. (fs, refl, on.0 e), λ (gs, same, c). on.1 (subst (Conforms spec at) (cc (same)) c))
validate_exact_object-Conforms spec _ at =
    (λ e. absurd (cc (e)), λ (fs, same, c). absurd (cc (same)))
