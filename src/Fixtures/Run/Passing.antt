-- ===== src/Fixtures/Run/Passing.antt =====
-- protocol/validator.mjs, runFixtureValidation: when it reports that all is well.
use openclaw_sip_voice.Base.{
  ◌≡◌, refl, ap, ◌∙◌, ◌↔◌, true, ◌||◌, String, List, [], ◌∷◌, ◌++◌, Option, none, some, ◌==◌, arith,
  All, if_cases,
}
use openclaw_sip_voice.Protocol.Value.{null}
use openclaw_sip_voice.Protocol.Pattern.{codes}
use openclaw_sip_voice.Protocol.Validators.{includes}
use openclaw_sip_voice.Protocol.Validators.Exact.{append-eq-nil}
use openclaw_sip_voice.Fixtures.Messages.{
  Verdict, passed, refused, type_error_thrown, validate_message,
}
use openclaw_sip_voice.Fixtures.Run.{
  Folder, valid_fixtures, invalid_fixtures, Read, parsed, unreadable, FixtureEnv, FixtureFailure,
  insert_name, sort_names, require_fixture_names, judged, check_fixture, check_fixtures, precedes,
  code_units, ◌>>=◌,
}

abbrev pub Judges : Folder → Verdict → Type 0
Judges valid_fixtures passed = Unit
Judges invalid_fixtures (refused r) = Unit
Judges _ _ = ⊥

module _ (env : FixtureEnv) where
  -- The file can be read and parsed, and holds `null`, or validateMessage accepts what it holds in
  -- the valid folder, and refuses it in the invalid one.
  abbrev pub Passes : Folder → Read → Type 0
  Passes folder (unreadable message) = ⊥
  Passes folder (parsed null) = Unit
  Passes folder (parsed v) = Judges folder (validate_message env.date_parses env.now v)

  judged_iff :
      (folder : Folder) (name : String) (verdict : Verdict)
      → (judged folder name verdict ≡ some []) ↔ Judges folder verdict
  unfolding judged
  judged_iff valid_fixtures name passed = (λ _. tt, λ _. refl)
  judged_iff invalid_fixtures name (refused r) = (λ _. tt, λ _. refl)
  judged_iff valid_fixtures name (refused r) = (λ e. cc (e), λ h. elim h [ ])
  judged_iff valid_fixtures name type_error_thrown = (λ e. cc (e), λ h. elim h [ ])
  judged_iff invalid_fixtures name passed = (λ e. cc (e), λ h. elim h [ ])
  judged_iff invalid_fixtures name type_error_thrown = (λ e. cc (e), λ h. elim h [ ])

  check_fixture_iff :
      (folder : Folder) (name : String) (read : Read)
      → (check_fixture env folder name read ≡ some []) ↔ Passes folder read
  unfolding check_fixture
  check_fixture_iff folder name (unreadable message) = (λ e. cc (e), λ h. elim h [ ])
  check_fixture_iff folder name (parsed null) = (λ _. tt, λ _. refl)
  check_fixture_iff folder name (parsed v) = judged_iff folder name _

  bind_nil :
      (a b : Option (List FixtureFailure))
      → ((a >>= λ xs. b >>= λ ys. some (xs ++ ys)) ≡ some []) ↔ ((a ≡ some []) × (b ≡ some []))
  bind_nil none b = (λ e. cc (e), λ h. cc (h.0))
  bind_nil (some xs) none = (λ e. cc (e), λ h. cc (h.1))
  bind_nil (some []) (some ys) = (λ e. (refl, e), λ h. h.1)
  bind_nil (some (x ∷ xs)) (some ys) = (λ e. cc (e), λ h. cc (h.0))

  pub check_fixtures_iff :
      (folder : Folder) (names : List String)
      → (check_fixtures env folder names ≡ some [])
        ↔ All (λ name. Passes folder (env.read_fixture folder name)) names
  unfolding check_fixtures
  check_fixtures_iff folder [] = (λ _. tt, λ _. refl)
  check_fixtures_iff folder (name ∷ names) =
      let split =
        bind_nil (check_fixture env folder name (env.read_fixture folder name))
          (check_fixtures env folder names) in
      let here = check_fixture_iff folder name (env.read_fixture folder name) in
      let rest = check_fixtures_iff folder names in
      (λ e. let t = split.0 e in (here.0 t.0, rest.0 t.1), λ h. split.1 (here.1 h.0, rest.1 h.1))

pub require_fixture_names_iff :
    (folder : Folder) (actual names : List String)
    → (require_fixture_names folder actual names ≡ [])
      ↔ All (λ name. includes actual name ≡ true) names
unfolding require_fixture_names
require_fixture_names_iff folder actual [] = (λ _. tt, λ _. refl)
require_fixture_names_iff folder actual (name ∷ names) =
    let ih = require_fixture_names_iff folder actual names in
    let split = append-eq-nil _ (require_fixture_names folder actual names) in
    (λ e. let t = split.0 e in (ground arith, ih.0 t.1), λ h. split.1 (ground arith, ih.1 h.1))

-- Sorting keeps the names.
insert_name-All :
    (P : String → Type 0) (name : String) (names : List String)
    → All P (insert_name name names) ↔ (P name × All P names)
unfolding insert_name
insert_name-All P name [] = (λ h. h, λ h. h)
insert_name-All P name (other ∷ names) =
    let ih = insert_name-All P name names in
    if_cases (λ xs. All P xs ↔ (P name × (P other × All P names)))
      (precedes (code_units (codes name)) (code_units (codes other))) (λ _. (λ h. h, λ h. h))
      (λ _. (λ h. let t = ih.0 h.1 in (t.0, (h.0, t.1)), λ h. (h.1.0, ih.1 (h.0, h.1.1))))

pub sort_names-All :
    (P : String → Type 0) (names : List String) → All P (sort_names names) ↔ All P names
unfolding sort_names
sort_names-All P [] = (λ h. h, λ h. h)
sort_names-All P (name ∷ names) =
    let one = insert_name-All P name (sort_names names) in
    let ih = sort_names-All P names in
    (λ h. let t = one.0 h in (t.0, ih.0 t.1), λ h. one.1 (h.0, ih.1 h.1))

includes-insert_name :
    (name : String) (names : List String) (key : String)
    → includes (insert_name name names) key ≡ (name == key || includes names key)
unfolding insert_name includes
includes-insert_name name [] key = refl
includes-insert_name name (other ∷ names) key =
    let ih = includes-insert_name name names key in
    if_cases (λ xs. includes xs key ≡ (name == key || (other == key || includes names key)))
      (precedes (code_units (codes name)) (code_units (codes other))) (λ _. refl)
      (λ _. ground (arith, ih))

pub includes-sort_names :
    (names : List String) (key : String) → includes (sort_names names) key ≡ includes names key
unfolding sort_names includes
includes-sort_names [] key = refl
includes-sort_names (name ∷ names) key =
    includes-insert_name name (sort_names names) key
    ∙ ap (λ b. name == key || b) (includes-sort_names names key)
