-- ===== src/Runtime/Snapshot/Clean.antt =====
-- plugin/src/runtime.ts, sanitizeBridgeSnapshot: nothing sensitive is left at any depth.
use openclaw_sip_voice.Base.{
  ◌≡◌, refl, inl, inr, ◌⊎◌, true, false, String, Option, none, some, Bool-cases, ◌==◌, if_cases,
}
use openclaw_sip_voice.Protocol.Value.{
  Value, undefined, null, bool, num, str, arr, obj, Items, nil, cons, Fields, end, field,
}
use openclaw_sip_voice.Runtime.Snapshot.{
  sensitive_key_re, sanitize_bridge_snapshot, sanitize_items, sanitize_fields, sanitize_optional,
}

module _ (redact : String → String) where
  -- At every depth: a sensitive key holds the word "[redacted]", and every other text has been
  -- through `redact`.
  abbrev mutual
    pub IsClean : Value → Type 0
    IsClean (str s) = (t : String) × (s ≡ redact t)
    IsClean (arr vs) = AreClean vs
    IsClean (obj fs) = HasClean fs
    IsClean _ = Unit

    pub AreClean : Items → Type 0
    AreClean nil = Unit
    AreClean (cons v vs) = IsClean v × AreClean vs

    pub HasClean : Fields → Type 0
    HasClean end = Unit
    HasClean (field key v fs) =
        (((sensitive_key_re key ≡ true) × (v ≡ str "[redacted]"))
          ⊎ ((sensitive_key_re key ≡ false) × IsClean v))
        × HasClean fs

  mutual
    unfolding sanitize_bridge_snapshot sanitize_items sanitize_fields

    pub sanitize_bridge_snapshot-IsClean : (v : Value) → IsClean (sanitize_bridge_snapshot redact v)
    sanitize_bridge_snapshot-IsClean (str s) = (s, refl)
    sanitize_bridge_snapshot-IsClean (arr vs) = sanitize_items-AreClean vs
    sanitize_bridge_snapshot-IsClean (obj fs) = sanitize_fields-HasClean fs
    sanitize_bridge_snapshot-IsClean undefined = tt
    sanitize_bridge_snapshot-IsClean null = tt
    sanitize_bridge_snapshot-IsClean (bool _) = tt
    sanitize_bridge_snapshot-IsClean (num _) = tt

    sanitize_items-AreClean : (vs : Items) → AreClean (sanitize_items redact vs)
    sanitize_items-AreClean nil = tt
    sanitize_items-AreClean (cons v vs) =
        (sanitize_bridge_snapshot-IsClean v, sanitize_items-AreClean vs)

    sanitize_fields-HasClean : (fs : Fields) → HasClean (sanitize_fields redact fs)
    sanitize_fields-HasClean end = tt
    sanitize_fields-HasClean (field key v fs) =
        let rest = sanitize_fields-HasClean fs in
        let inner = sanitize_bridge_snapshot-IsClean v in
        if_cases HasClean (key == "__proto__") (λ _. rest)
          (λ _. elim (Bool-cases (sensitive_key_re key)) [
            | inl hit ↦ (inl (hit, rw hit), rest)
            | inr miss ↦ (inr (miss, rw miss inner), rest)
          ])

  abbrev pub IsCleanOption : Option Value → Type 0
  IsCleanOption none = Unit
  IsCleanOption (some v) = IsClean v

  pub sanitize_optional-IsCleanOption :
      (o : Option Value) → IsCleanOption (sanitize_optional redact o)
  unfolding sanitize_optional
  sanitize_optional-IsCleanOption none = tt
  sanitize_optional-IsCleanOption (some v) = sanitize_bridge_snapshot-IsClean v
