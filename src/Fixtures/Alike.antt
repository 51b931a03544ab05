-- ===== src/Fixtures/Alike.antt =====
-- Validators that find something in the same values, and specs of such validators.
use openclaw_sip_voice.Base.{
  ◌≡◌, refl, sym, ◌↔◌, Bool, true, false, String, List, [], ◌∷◌, ◌++◌, Option, some, if◌then◌else◌,
  ◌==◌,
}
use openclaw_sip_voice.Protocol.Value.{Value, obj, Fields, end, field, Place, key_of}
use openclaw_sip_voice.Protocol.Validators.{
  Validator, ObjectSpec, find_validator, run_validator, validate_exact_object, exact_object,
}
use openclaw_sip_voice.Protocol.Validators.Exact.{
  AllFields, FieldFits, Conforms, validate_exact_object_iff,
}

abbrev pub Alike : Validator → Validator → Type 0
Alike V W = (v : Value) (at : Place) → (V v at ≡ []) ↔ (W v at ≡ [])

pub Alike-refl : (V : Validator) → Alike V V
Alike-refl V v at = (λ e. e, λ e. e)

-- Properties with the same names in the same order, whose validators are alike.
abbrev pub AllAlike : List (String × Validator) → List (String × Validator) → Type 0
AllAlike [] [] = Unit
AllAlike ((k, V) ∷ ps) ((l, W) ∷ qs) = (k ≡ l) × Alike V W × AllAlike ps qs
AllAlike _ _ = ⊥

pub AllAlike-refl : (ps : List (String × Validator)) → AllAlike ps ps
AllAlike-refl [] = tt
AllAlike-refl ((k, V) ∷ ps) = (refl, Alike-refl V, AllAlike-refl ps)

pub Alike-but_last :
    (ps : List (String × Validator)) (key : String) (V W : Validator)
    → Alike V W
    → AllAlike (ps ++ (key, V) ∷ []) (ps ++ (key, W) ∷ [])
Alike-but_last [] key V W a = (refl, a, tt)
Alike-but_last ((k, U) ∷ ps) key V W a = (refl, Alike-refl U, Alike-but_last ps key V W a)

AllAlike-sym : (ps qs : List (String × Validator)) → AllAlike ps qs → AllAlike qs ps
AllAlike-sym [] [] h = tt
AllAlike-sym [] (_ ∷ qs) h = elim h [ ]
AllAlike-sym ((k, V) ∷ ps) [] h = elim h [ ]
AllAlike-sym ((k, V) ∷ ps) ((l, W) ∷ qs) (e, a, h) =
    (sym e, λ v at. ((a v at).1, (a v at).0), AllAlike-sym ps qs h)

run_either-Alike :
    (b : Bool) (V W : Validator) (o p : Option Validator)
    → Alike V W
    → Alike (run_validator o) (run_validator p)
    → Alike (run_validator (if b then some V else o)) (run_validator (if b then some W else p))
run_either-Alike true V W o p a h = a
run_either-Alike false V W o p a h = h

find_validator-Alike :
    (key : String) (ps qs : List (String × Validator))
    → AllAlike ps qs
    → Alike (run_validator (find_validator key ps)) (run_validator (find_validator key qs))
unfolding find_validator
find_validator-Alike key [] [] h = Alike-refl _
find_validator-Alike key [] (_ ∷ qs) h = elim h [ ]
find_validator-Alike key ((k, V) ∷ ps) [] h = elim h [ ]
find_validator-Alike key ((k, V) ∷ ps) ((l, W) ∷ qs) (e, a, h) =
    rw e (run_either-Alike (l == key) V W _ _ a (find_validator-Alike key ps qs h))

-- The specs want the same of the same fields.
pub record SpecsAlike (s t : ObjectSpec) : Type 0 where
  pub same_required : s.required ≡ t.required
  pub same_optional : s.optional ≡ t.optional
  pub properties_alike : AllAlike s.properties t.properties
  pub afters_alike : (fs : Fields) (at : Place) → (s.after fs at ≡ []) ↔ (t.after fs at ≡ [])

pub AllFields-map :
    (P Q : String → Value → Type 0)
    → ((k : String) (v : Value) → P k v → Q k v)
    → (fs : Fields) → AllFields P fs
    → AllFields Q fs
AllFields-map P Q f end h = tt
AllFields-map P Q f (field k v fs) (p, h) = (f k v p, AllFields-map P Q f fs h)

Conforms-Alike :
    (s t : ObjectSpec) (at : Place) (fs : Fields)
    → SpecsAlike s t
    → Conforms s at fs
    → Conforms t at fs
Conforms-Alike s t at fs a c = record {
  complete = rw a.same_required at c.complete;
  exact =
      AllFields-map (FieldFits s at) (FieldFits t at)
        (λ k v (named, found). (
          rw (a.same_required, a.same_optional) at named,
          (find_validator-Alike k s.properties t.properties a.properties_alike v (key_of at k)).0
              found,
        ))
        fs c.exact;
  after_fits = (a.afters_alike fs at).0 c.after_fits;
}

SpecsAlike-sym : (s t : ObjectSpec) → SpecsAlike s t → SpecsAlike t s
SpecsAlike-sym s t a = record {
  same_required = sym a.same_required;
  same_optional = sym a.same_optional;
  properties_alike = AllAlike-sym s.properties t.properties a.properties_alike;
  afters_alike = λ fs at. ((a.afters_alike fs at).1, (a.afters_alike fs at).0);
}

pub validate_exact_object-Alike :
    (s t : ObjectSpec) → SpecsAlike s t → Alike (validate_exact_object s) (validate_exact_object t)
unfolding validate_exact_object
validate_exact_object-Alike s t a (obj fs) at = (
  λ e.
      (validate_exact_object_iff t fs at).1
        (Conforms-Alike s t at fs a ((validate_exact_object_iff s fs at).0 e)),
  λ e.
      (validate_exact_object_iff s fs at).1
        (Conforms-Alike t s at fs (SpecsAlike-sym s t a) ((validate_exact_object_iff t fs at).0 e)),
)
validate_exact_object-Alike s t a _ at = (λ e. absurd (cc (e)), λ e. absurd (cc (e)))

pub exact_object-Alike :
    (s t : ObjectSpec) → SpecsAlike s t → Alike (exact_object s) (exact_object t)
unfolding exact_object
exact_object-Alike s t a v at = validate_exact_object-Alike s t a v at
