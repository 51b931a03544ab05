-- ===== src/Fixtures/Run/Plugin.antt =====
-- What a run of the fixtures says of plugin/src/protocol.ts.
use openclaw_sip_voice.Base.{
  ◌≡◌, ◌≢◌, refl, subst, Bool, true, String, List, [], ◌∷◌, some, arith, All, eq_iff, Bool-cases,
  inl, inr, ◌==◌,
}
use openclaw_sip_voice.Protocol.Value.{Value, null}
use openclaw_sip_voice.Protocol.Validators.{includes}
use openclaw_sip_voice.Protocol.Messages.{Result, valid, failed, throws, validate_protocol_message}
use openclaw_sip_voice.Protocol.Messages.Validity.{validate_protocol_message_iff}
use openclaw_sip_voice.Fixtures.Messages.{
  Verdict, passed, refused, type_error_thrown, validate_message,
}
use openclaw_sip_voice.Fixtures.Agreement.{HasKeysOnce, Agree, validate_message-Agree}
use openclaw_sip_voice.Fixtures.Run.{
  Folder, valid_fixtures, invalid_fixtures, parsed, FixtureEnv, json_names, run_fixture_validation,
}
use openclaw_sip_voice.Fixtures.Run.Passing.{Judges, Passes}
use openclaw_sip_voice.Fixtures.Run.Result.{ReportsOk, run_fixture_validation_iff}

All-includes :
    (P : String → Type 0) (names : List String) (name : String)
    → All P names
    → includes names name ≡ true
    → P name
unfolding includes
All-includes P [] name h e = absurd (cc (e))
All-includes P (other ∷ names) name (p, h) e = elim (Bool-cases (other == name)) [
  | inl hit ↦ subst P ((eq_iff other name).0 hit) p
  | inr miss ↦ All-includes P names name h (ground (arith, e, miss))
]

abbrev pub IsRefusal : Result → Type 0
IsRefusal (failed error errors) = Unit
IsRefusal _ = ⊥

module _ (date_parses : String → Bool) (now : String) where
  agreed_valid :
      (v : Value) (verdict : Verdict) (r : Result)
      → Judges valid_fixtures verdict
      → Agree verdict r
      → validate_protocol_message date_parses v ≡ r
      → validate_protocol_message date_parses v ≡ valid v
  agreed_valid v passed (valid w) h a e =
      let (fs, from, same, m) = (validate_protocol_message_iff date_parses v w).0 e in rw same at e
  agreed_valid v passed (failed error errors) h a e = elim a [ ]
  agreed_valid v passed throws h a e = elim a [ ]
  agreed_valid v (refused r') r h a e = elim h [ ]
  agreed_valid v type_error_thrown r h a e = elim h [ ]

  agreed_invalid :
      (verdict : Verdict) (r : Result)
      → Judges invalid_fixtures verdict
      → Agree verdict r
      → IsRefusal r
  agreed_invalid (refused r') (failed error errors) h a = tt
  agreed_invalid (refused r') (valid w) h a = elim a [ ]
  agreed_invalid (refused r') throws h a = elim a [ ]
  agreed_invalid passed r h a = elim h [ ]
  agreed_invalid type_error_thrown r h a = elim h [ ]

module _ (env : FixtureEnv) where
  -- A fixture of the folder is read as this value, which is not `null` and has distinct keys.
  pub record Holds (folder : Folder) (names : List String) (name : String) (v : Value)
      : Type 0 where
    pub listed : includes (json_names names) name ≡ true
    pub read : env.read_fixture folder name ≡ parsed v
    pub not_null : v ≢ null
    pub keys_once : HasKeysOnce v

  judged_of :
      (folder : Folder) (v : Value)
      → Passes env folder (parsed v)
      → v ≢ null
      → Judges folder (validate_message env.date_parses env.now v)
  judged_of folder null h other = absurd (other refl)
  judged_of folder v h other = h

  -- If a run over two folders that can be listed reports that all is well, then the plugin's
  -- validateProtocolMessage accepts what each fixture of the valid folder holds, unchanged, and refuses
  -- what each one of the invalid folder holds, where that is not `null` and has distinct keys.
  pub run_fixture_validation-plugin :
      (valids invalids : List String)
      → env.listing valid_fixtures ≡ some valids
      → env.listing invalid_fixtures ≡ some invalids
      → ReportsOk env (run_fixture_validation env)
      → ((name : String) (v : Value)
          → Holds valid_fixtures valids name v
          → validate_protocol_message env.date_parses v ≡ valid v)
        × ((name : String) (v : Value)
            → Holds invalid_fixtures invalids name v
            → IsRefusal (validate_protocol_message env.date_parses v))
  run_fixture_validation-plugin valids invalids e f ok =
      let fine = (run_fixture_validation_iff env valids invalids e f).0 ok in
      (
        λ name v h.
            let passes =
              rw h.read at (All-includes _ (json_names valids) name fine.valids_pass h.listed) in
            agreed_valid env.date_parses env.now v _ _
              (judged_of valid_fixtures v passes h.not_null)
              (validate_message-Agree env.date_parses env.now v h.keys_once) refl,
        λ name v h.
            let passes =
              rw h.read at
                (All-includes _ (json_names invalids) name fine.invalids_pass h.listed) in
            agreed_invalid env.date_parses env.now _ _
              (judged_of invalid_fixtures v passes h.not_null)
              (validate_message-Agree env.date_parses env.now v h.keys_once),
      )
