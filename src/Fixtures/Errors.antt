-- ===== src/Fixtures/Errors.antt =====
-- protocol/validator.mjs: its spec of an `error` event, beside the one of plugin/src/protocol.ts. The
-- plugin asks for the expected versions where it looks at the details, the validator at the end.
use openclaw_sip_voice.Base.{
  ◌≡◌, refl, ◌↔◌, Bool, true, false, String, List, [], ◌∷◌, ◌++◌, none, some, if◌then◌else◌, ◌==◌,
  arith, eq_iff, eq_refl, subst, if_cases,
}
use openclaw_sip_voice.Protocol.Value.{
  Value, obj, Fields, end, field, get, has_own, as_record, Place, key_of,
}
use openclaw_sip_voice.Protocol.Validators.{
  Validator, exact_object, validate_exact_object, find_validator, run_validator, boolean_value,
}
use openclaw_sip_voice.Protocol.Validators.Exact.{
  AllFields, FieldFits, Conforms, validate_exact_object_iff,
}
use openclaw_sip_voice.Protocol.Specs.Parts.{
  envelope, call_id as plugin_call_id, command_id as plugin_command_id,
}
use openclaw_sip_voice.Protocol.Specs.Events.{
  error_spec as plugin_error_spec, error_details_spec as plugin_details_spec, error_details_after,
  error_after as plugin_error_after,
}
use openclaw_sip_voice.Fixtures.Alike.{AllFields-map}
use openclaw_sip_voice.Fixtures.Parts.{call_id, command_id}
use openclaw_sip_voice.Fixtures.Events.{error_spec, error_details_spec, error_after}

-- No key is there twice, as in every JavaScript object.
abbrev pub NoRepeat : Fields → Type 0
NoRepeat end = Unit
NoRepeat (field k v fs) = (has_own fs k ≡ false) × NoRepeat fs

-- A field that is there has what holds of all.
AllFields-get :
    (P : String → Value → Type 0) (key : String) (fs : Fields)
    → AllFields P fs
    → has_own fs key ≡ true
    → P key (get key fs)
unfolding get has_own
AllFields-get P key end h e = absurd (cc (e))
AllFields-get P key (field k v fs) (p, h) e =
    if_cases (λ u. P key u) (k == key) (λ yes. subst (λ name. P name v) ((eq_iff k key).0 yes) p)
      (λ no. AllFields-get P key fs h (ground (arith, e, no)))

-- The field is there and is the one that is read.
abbrev pub IsRead : Fields → String → Value → Type 0
IsRead fs k v = (has_own fs k ≡ true) × (get k fs ≡ v)

IsRead-behind :
    (k : String) (v : Value) (fs : Fields)
    → has_own fs k ≡ false
    → (l : String) (w : Value) → IsRead fs l w
    → IsRead (field k v fs) l w
unfolding get has_own
IsRead-behind k v fs free l w (own, read) =
    let other : (k == l) ≡ false = not_same (k == l) refl in rw other (own, read)
  where
    not_same : (b : Bool) → (k == l) ≡ b → b ≡ false
    not_same false e = refl
    not_same true e = let same = (eq_iff k l).0 e in absurd (cc (free, own, same))

-- Without repetition each field is the one that is read.
fields-IsRead : (fs : Fields) → NoRepeat fs → AllFields (IsRead fs) fs
unfolding get has_own
fields-IsRead end n = tt
fields-IsRead (field k v fs) (free, n) = (
  (rw (eq_refl k) refl, rw (eq_refl k) refl),
  AllFields-map (IsRead fs) (IsRead (field k v fs)) (IsRead-behind k v fs free) fs
      (fields-IsRead fs n),
)

-- What the plugin asks of the details of an error besides.
AfterDetails : Value → Place → Type 0
AfterDetails v at = error_details_after (as_record v) at ≡ []

details_split :
    (v : Value) (at : Place)
    → (exact_object plugin_details_spec v at ≡ [])
      ↔ ((exact_object error_details_spec v at ≡ []) × AfterDetails v at)
unfolding exact_object validate_exact_object as_record AfterDetails plugin_details_spec
    error_details_spec plugin_call_id plugin_command_id call_id command_id
details_split (obj gs) at = (
  λ e.
      let c = (validate_exact_object_iff plugin_details_spec gs at).0 e in
      (
        (validate_exact_object_iff error_details_spec gs at).1
            (record { complete = c.complete; exact = c.exact; after_fits = refl }),
        c.after_fits,
      ),
  λ (e, after).
      let c = (validate_exact_object_iff error_details_spec gs at).0 e in
      (validate_exact_object_iff plugin_details_spec gs at).1
        (record { complete = c.complete; exact = c.exact; after_fits = after }),
)
details_split _ at = (λ e. absurd (cc (e)), λ e. absurd (cc (e.0)))

-- At the end the validator asks what the plugin asks at the end and of the details.
after_split :
    (fs : Fields) (at : Place)
    → (error_after fs at ≡ [])
      ↔ ((plugin_error_after fs at ≡ []) × AfterDetails (get "error" fs) (key_of at "error"))
unfolding error_after plugin_error_after error_details_after AfterDetails
after_split fs at = ground arith

-- Lists of properties that differ in the validator of the last one.
swap_last :
    (name key : String) (ps : List (String × Validator)) (V W : Validator) (v : Value) (at : Place)
    → (name ≡ key → V v at ≡ [] → W v at ≡ [])
    → run_validator (find_validator key (ps ++ (name, V) ∷ [])) v at ≡ []
    → run_validator (find_validator key (ps ++ (name, W) ∷ [])) v at ≡ []
unfolding find_validator
swap_last name key [] V W v at f = by_test (name == key) refl
  where
    by_test :
        (b : Bool)
        → (name == key) ≡ b
        → run_validator (if b then some V else none) v at ≡ []
        → run_validator (if b then some W else none) v at ≡ []
    by_test true e h = f ((eq_iff name key).0 e) h
    by_test false e h = refl
swap_last name key ((k, U) ∷ ps) V W v at f = behind (k == key) (swap_last name key ps V W v at f)
  where
    behind :
        (b : Bool)
        → (run_validator (find_validator key (ps ++ (name, V) ∷ [])) v at ≡ []
            → run_validator (find_validator key (ps ++ (name, W) ∷ [])) v at ≡ [])
        → run_validator (if b then some U else find_validator key (ps ++ (name, V) ∷ [])) v at ≡ []
        → run_validator (if b then some U else find_validator key (ps ++ (name, W) ∷ [])) v at ≡ []
    behind true ih h = h
    behind false ih h = ih h

AllFields-both :
    (P Q : String → Value → Type 0) (fs : Fields)
    → AllFields P fs
    → AllFields Q fs
    → AllFields (λ k v. P k v × Q k v) fs
AllFields-both P Q end p q = tt
AllFields-both P Q (field k v fs) (p, ps) (q, qs) = ((p, q), AllFields-both P Q fs ps qs)

module _ (date_parses : String → Bool) where
  abbrev properties_before : List (String × Validator)
  properties_before = envelope date_parses "error" ++ ("fatal", boolean_value) ∷ []

  abbrev FitsRead : Fields → Place → String → Value → Type 0
  FitsRead fs at k v = FieldFits (error_spec date_parses) at k v × IsRead fs k v

  moved :
      (fs : Fields) (at : Place) (k : String) (v : Value)
      → "error" ≡ k
      → get k fs ≡ v
      → AfterDetails (get "error" fs) (key_of at "error")
      → AfterDetails v (key_of at k)
  moved fs at k v same read h =
      subst (λ u. AfterDetails u (key_of at k)) read
        (subst (λ name. AfterDetails (get name fs) (key_of at name)) same h)

  forth :
      (fs : Fields) (at : Place)
      → Conforms (plugin_error_spec date_parses) at fs
      → Conforms (error_spec date_parses) at fs
  unfolding plugin_error_spec error_spec exact_object find_validator
  forth fs at c =
      let present : has_own fs "error" ≡ true = c.complete.1.1.1.1.0 in
      let fits =
        AllFields-get (FieldFits (plugin_error_spec date_parses) at) "error" fs c.exact present in
      let details = (details_split (get "error" fs) (key_of at "error")).0 fits.1 in
      record {
        complete = c.complete;
        exact =
            AllFields-map (FieldFits (plugin_error_spec date_parses) at)
              (FieldFits (error_spec date_parses) at)
              (λ k v (named, found). (
                named,
                swap_last "error" k (properties_before) (exact_object plugin_details_spec)
                    (exact_object error_details_spec) v (key_of at k)
                    (λ _ e. ((details_split v (key_of at k)).0 e).0) found,
              ))
              fs c.exact;
        after_fits = (after_split fs at).1 (c.after_fits, details.1);
      }

  back :
      (fs : Fields) (at : Place)
      → NoRepeat fs
      → Conforms (error_spec date_parses) at fs
      → Conforms (plugin_error_spec date_parses) at fs
  unfolding plugin_error_spec error_spec
  back fs at n c =
      let after = (after_split fs at).0 c.after_fits in
      record {
        complete = c.complete;
        exact =
            AllFields-map (FitsRead fs at) (FieldFits (plugin_error_spec date_parses) at)
              (λ k v ((named, found), (own, read)). (
                named,
                swap_last "error" k (properties_before) (exact_object error_details_spec)
                    (exact_object plugin_details_spec) v (key_of at k)
                    (λ same e.
                      (details_split v (key_of at k)).1 (e, moved fs at k v same read after.1))
                    found,
              ))
              fs (AllFields-both _ (IsRead fs) fs c.exact (fields-IsRead fs n));
        after_fits = after.0;
      }

  -- The two specs of an `error` event fit the same objects without a repeated key.
  pub error_spec_iff :
      (fs : Fields) (at : Place)
      → NoRepeat fs
      → (validate_exact_object (plugin_error_spec date_parses) (obj fs) at ≡ [])
        ↔ (validate_exact_object (error_spec date_parses) (obj fs) at ≡ [])
  error_spec_iff fs at n =
      let plugin = validate_exact_object_iff (plugin_error_spec date_parses) fs at in
      let own = validate_exact_object_iff (error_spec date_parses) fs at in
      (λ e. own.1 (forth fs at (plugin.0 e)), λ e. plugin.1 (back fs at n (own.0 e)))
