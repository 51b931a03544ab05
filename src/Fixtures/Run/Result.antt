-- ===== src/Fixtures/Run/Result.antt =====
-- protocol/validator.mjs, runFixtureValidation: its result, and what it says of the plugin.
use openclaw_sip_voice.Base.{
  ℕ, ◌≡◌, refl, ap, ◌↔◌, Bool, true, String, List, [], ◌++◌, Option, none, some, All, is_empty,
  length, ◌+◌, fun_ext,
}
use openclaw_sip_voice.Protocol.Validators.{includes}
use openclaw_sip_voice.Fixtures.Run.{
  valid_fixtures, invalid_fixtures, Read, parsed, unreadable, FixtureEnv, FixtureFailure, Report,
  required_valid_fixtures, required_invalid_fixtures, json_names, json_files, sort_names,
  require_fixture_names, schema_failures, check_fixtures, fixture_report, run_fixture_validation,
  ◌>>=◌,
}
use openclaw_sip_voice.Fixtures.Run.Passing.{
  Passes, check_fixtures_iff, require_fixture_names_iff, sort_names-All, includes-sort_names,
}

abbrev pub IsParsed : Read → Type 0
IsParsed (parsed v) = Unit
IsParsed (unreadable message) = ⊥

module _ (env : FixtureEnv) where
  -- What the run asks of the schema and of the names in the two folders.
  pub record AllFine (valids invalids : List String) : Type 0 where
    pub schema_parsed : IsParsed env.schema
    pub valids_present : All (λ name. includes valids name ≡ true) required_valid_fixtures
    pub invalids_present : All (λ name. includes invalids name ≡ true) required_invalid_fixtures
    pub valids_pass :
        All (λ name. Passes env valid_fixtures (env.read_fixture valid_fixtures name)) valids
    pub invalids_pass :
        All (λ name. Passes env invalid_fixtures (env.read_fixture invalid_fixtures name)) invalids

  -- The run comes to an end and reports that all is well.
  abbrev pub ReportsOk : Option Report → Type 0
  ReportsOk none = ⊥
  ReportsOk (some r) = r.ok ≡ true

  schema_failures_iff : (read : Read) → (schema_failures read ≡ []) ↔ IsParsed read
  unfolding schema_failures
  schema_failures_iff (parsed v) = (λ _. tt, λ _. refl)
  schema_failures_iff (unreadable message) = (λ e. cc (e), λ h. elim h [ ])

  joined :
      (n : ℕ) (a b c : List FixtureFailure) (o p : Option (List FixtureFailure))
      → ReportsOk (
          o >>= λ xs. p >>= λ ys.
          let failures = a ++ b ++ c ++ xs ++ ys in
          some (record { ok = is_empty failures; checked = n; failures = failures }))
        ↔ ((a ≡ []) × (b ≡ []) × (c ≡ []) × (o ≡ some []) × (p ≡ some []))
  joined n a b c none p = (λ e. elim e [ ], λ (_, _, _, h, _). cc (h))
  joined n a b c (some xs) none = (λ e. elim e [ ], λ (_, _, _, _, h). cc (h))
  joined n [] [] [] (some []) (some []) = (λ e. (refl, refl, refl, refl, refl), λ h. refl)
  joined n _ _ _ (some _) (some _) = (λ e. cc (e), λ (i, j, k, h, l). cc)

  fixture_report_iff : (vs ws : List String) → ReportsOk (fixture_report env vs ws) ↔ AllFine vs ws
  unfolding fixture_report
  fixture_report_iff vs ws =
      let all =
        joined (length vs + length ws) (schema_failures env.schema)
          (require_fixture_names valid_fixtures vs required_valid_fixtures)
          (require_fixture_names invalid_fixtures ws required_invalid_fixtures)
          (check_fixtures env valid_fixtures vs) (check_fixtures env invalid_fixtures ws) in
      let schema = schema_failures_iff env.schema in
      let first = require_fixture_names_iff valid_fixtures vs required_valid_fixtures in
      let second = require_fixture_names_iff invalid_fixtures ws required_invalid_fixtures in
      let third = check_fixtures_iff env valid_fixtures vs in
      let fourth = check_fixtures_iff env invalid_fixtures ws in
      (
        λ e.
            let (i, j, k, h, l) = all.0 e in
            record {
              schema_parsed = schema.0 i;
              valids_present = first.0 j;
              invalids_present = second.0 k;
              valids_pass = third.0 h;
              invalids_pass = fourth.0 l;
            },
        λ a. all.1 (
          schema.1 a.schema_parsed,
          first.1 a.valids_present,
          second.1 a.invalids_present,
          third.1 a.valids_pass,
          fourth.1 a.invalids_pass,
        ),
      )

  present_sorted :
      (names required : List String)
      → All (λ name. includes (sort_names names) name ≡ true) required
        ≡ All (λ name. includes names name ≡ true) required
  present_sorted names required =
      ap (λ (f : String → Bool). All (λ name. f name ≡ true) required)
        (fun_ext (includes-sort_names names))

  AllFine-sorted : (vs ws : List String) → AllFine (sort_names vs) (sort_names ws) ↔ AllFine vs ws
  AllFine-sorted vs ws = (
    λ a. record {
      schema_parsed = a.schema_parsed;
      valids_present = rw (present_sorted vs required_valid_fixtures) at a.valids_present;
      invalids_present = rw (present_sorted ws required_invalid_fixtures) at a.invalids_present;
      valids_pass = (sort_names-All _ vs).0 a.valids_pass;
      invalids_pass = (sort_names-All _ ws).0 a.invalids_pass;
    },
    λ a. record {
      schema_parsed = a.schema_parsed;
      valids_present = rw (present_sorted vs required_valid_fixtures) (a.valids_present);
      invalids_present = rw (present_sorted ws required_invalid_fixtures) (a.invalids_present);
      valids_pass = (sort_names-All _ vs).1 a.valids_pass;
      invalids_pass = (sort_names-All _ ws).1 a.invalids_pass;
    },
  )

  -- If the listings of both folders are read, the run reports that all is well exactly if the schema
  -- can be parsed, every required fixture is there, and every file whose name ends in .json passes:
  -- it can be parsed, and holds `null`, or a value that validateMessage accepts, in the valid folder,
  -- or refuses, in the invalid one. In particular validateMessage throws on none of them.
  pub run_fixture_validation_iff :
      (valids invalids : List String)
      → env.listing valid_fixtures ≡ some valids
      → env.listing invalid_fixtures ≡ some invalids
      → ReportsOk (run_fixture_validation env) ↔ AllFine (json_names valids) (json_names invalids)
  unfolding run_fixture_validation json_files
  run_fixture_validation_iff valids invalids e f =
      let report = fixture_report_iff (json_files valids) (json_files invalids) in
      let sorted = AllFine-sorted (json_names valids) (json_names invalids) in
      rw (e, f) (λ ok. sorted.0 (report.0 ok), λ a. report.1 (sorted.1 a))
