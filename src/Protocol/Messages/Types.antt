-- ===== src/Protocol/Messages/Types.antt =====
-- plugin/src/protocol.ts: the message types, and what the lookup of a spec finds for a type.
use openclaw_sip_voice.Base.{
  ◌≡◌, refl, sym, ap, ◌∙◌, ◌↔◌, ◌⊎◌, inl, inr, Bool, true, false, not, ◌&&◌, ◌||◌, String, List, [],
  ◌∷◌, ◌++◌, arith, ◌==◌, eq_iff, Bool-cases,
}
use openclaw_sip_voice.Protocol.Validators.{ObjectSpec, includes}
use openclaw_sip_voice.Protocol.Specs.Commands.{
  SpecLookup, own, inherited, missing, inherited_names, bridge_event_types, plugin_command_types,
  find_in, find_spec, message_specs,
}

abbrev names : List (String × ObjectSpec) → List String
names [] = []
names ((t, spec) ∷ specs) = t ∷ names specs

includes-append :
    (xs ys : List String) (s : String) → includes (xs ++ ys) s ≡ (includes xs s || includes ys s)
unfolding includes
includes-append [] ys s = refl
includes-append (x ∷ xs) ys s = ground (arith, includes-append xs ys s)

unfoldable pub disjoint : List String → List String → Bool
disjoint [] ys = true
disjoint (x ∷ xs) ys = not (includes ys x) && disjoint xs ys

pub includes-disjoint :
    (xs ys : List String) (s : String)
    → disjoint xs ys ≡ true
    → includes xs s ≡ true
    → includes ys s ≡ false
unfolding includes disjoint
includes-disjoint [] ys s d h = cc
includes-disjoint (x ∷ xs) ys s d h = elim (Bool-cases (x == s)) [
  | inl here ↦ rw (← (eq_iff x s).0 here) (ground arith)
  | inr there ↦ includes-disjoint xs ys s (ground arith) (ground arith)
]

-- What the lookup finds, by the names of the table.
data Found (type : String) (specs : List (String × ObjectSpec)) : SpecLookup → Type 0 where
  listed : (spec : ObjectSpec) → includes (names specs) type ≡ true → Found type specs (own spec)
  unlisted_inherited :
      includes (names specs) type ≡ false
      → includes inherited_names type ≡ true
      → Found type specs inherited
  unlisted :
      includes (names specs) type ≡ false
      → includes inherited_names type ≡ false
      → Found type specs missing

Found-cons :
    (type t : String) (spec : ObjectSpec) (specs : List (String × ObjectSpec)) {l : SpecLookup}
    → (t == type) ≡ false
    → Found type specs l
    → Found type ((t, spec) ∷ specs) l
unfolding includes
Found-cons type t spec specs e (listed s h) = listed s (rw (e) h)
Found-cons type t spec specs e (unlisted_inherited h i) = unlisted_inherited (rw e h) i
Found-cons type t spec specs e (unlisted h i) = unlisted (rw e h) i

find_in-Found :
    (type : String) (specs : List (String × ObjectSpec)) → Found type specs (find_in type specs)
unfolding includes
find_in-Found type [] = elim (Bool-cases (includes inherited_names type)) [
  | inl is_inherited ↦ rw is_inherited (unlisted_inherited refl is_inherited)
  | inr not_inherited ↦ rw not_inherited (unlisted refl not_inherited)
]
find_in-Found type ((t, spec) ∷ specs) = elim (Bool-cases (t == type)) [
  | inl here ↦ rw here (listed spec (rw here))
  | inr there ↦ rw there (Found-cons type t spec specs there (find_in-Found type specs))
]

module _ (date_parses : String → Bool) where
  names-message_specs :
      names (message_specs date_parses) ≡ bridge_event_types ++ plugin_command_types
  unfolding message_specs
  names-message_specs = refl

  names_not_inherited :
      (type : String)
      → includes inherited_names type ≡ true
      → includes (names (message_specs date_parses)) type ≡ false
  unfolding message_specs disjoint includes
  names_not_inherited type h =
      unfold message_specs disjoint includes in
      includes-disjoint inherited_names (bridge_event_types ++ plugin_command_types) type refl h

  find_spec-Found :
      (type : String) → Found type (message_specs date_parses) (find_spec date_parses type)
  unfolding find_spec
  find_spec-Found type = find_in-Found type _

  -- A type with a spec is the type of an event or of a command.
  pub known_type :
      (type : String) {spec : ObjectSpec}
      → find_spec date_parses type ≡ own spec
      → (includes bridge_event_types type ≡ true) ⊎ (includes plugin_command_types type ≡ true)
  known_type type e = from (find_spec date_parses type) (find_spec-Found type) e
    where
      from :
          (l : SpecLookup)
          → Found type (message_specs date_parses) l
          → {spec : ObjectSpec} → l ≡ own spec
          → (includes bridge_event_types type ≡ true) ⊎ (includes plugin_command_types type ≡ true)
      from _ (listed spec h) e =
          let both =
            sym (includes-append bridge_event_types plugin_command_types type)
            ∙ ap (λ xs. includes xs type) (sym names-message_specs)
            ∙ h in
          ground arith
      from _ (unlisted_inherited h i) e = cc
      from _ (unlisted h i) e = cc

  -- The lookup finds an inherited property exactly for the names of Object.prototype.
  pub find_spec-eq-inherited :
      (type : String)
      → (find_spec date_parses type ≡ inherited) ↔ (includes inherited_names type ≡ true)
  find_spec-eq-inherited type = (
    λ e. forth (find_spec date_parses type) (find_spec-Found type) e,
    λ h. back (find_spec date_parses type) (find_spec-Found type) h,
  )
    where
      forth :
          (l : SpecLookup)
          → Found type (message_specs date_parses) l
          → l ≡ inherited
          → includes inherited_names type ≡ true
      forth _ (listed spec h) e = cc
      forth _ (unlisted_inherited h i) e = i
      forth _ (unlisted h i) e = cc

      back :
          (l : SpecLookup)
          → Found type (message_specs date_parses) l
          → includes inherited_names type ≡ true
          → l ≡ inherited
      back _ (listed spec h) i = cc (names_not_inherited type i, h)
      back _ (unlisted_inherited h _) i = refl
      back _ (unlisted h j) i = cc
