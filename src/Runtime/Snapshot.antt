-- ===== src/Runtime/Snapshot.antt =====
-- plugin/src/runtime.ts, sanitizeBridgeSnapshot: what the status shows of the bridge's messages.
pub mod Clean
use openclaw_sip_voice.Base.{Bool, Option, none, some, String, map, if◌then◌else◌, ◌==◌}
use openclaw_sip_voice.Protocol.Value.{Value, str, arr, obj, Items, nil, cons, Fields, end, field}
use openclaw_sip_voice.Protocol.Pattern.{codes, to_lower, occurs_one_of, forbidden_words}

-- SENSITIVE_KEY_RE has the words of the pattern for forbidden field names.
unfoldable pub sensitive_key_re : String → Bool
sensitive_key_re key = occurs_one_of forbidden_words (map to_lower (codes key))

-- What is assigned to the own property `key` of the copy. An assignment to `__proto__` makes no own
-- property.
abbrev pub set_sanitized : String → Value → Fields → Fields
set_sanitized key value fs = if key == "__proto__" then fs else field key value fs

module _ (redact : String → String) where
  -- sanitizeBridgeSnapshot, with redactSensitiveText as a parameter
  unfoldable mutual
    pub sanitize_bridge_snapshot : Value → Value
    sanitize_bridge_snapshot (str s) = str (redact s)
    sanitize_bridge_snapshot (arr vs) = arr (sanitize_items vs)
    sanitize_bridge_snapshot (obj fs) = obj (sanitize_fields fs)
    sanitize_bridge_snapshot value = value

    pub sanitize_items : Items → Items
    sanitize_items nil = nil
    sanitize_items (cons v vs) = cons (sanitize_bridge_snapshot v) (sanitize_items vs)

    pub sanitize_fields : Fields → Fields
    sanitize_fields end = end
    sanitize_fields (field key child fs) =
        set_sanitized key
          (if sensitive_key_re key then str "[redacted]" else sanitize_bridge_snapshot child)
          (sanitize_fields fs)

  -- of a snapshot, if there is one
  unfoldable pub sanitize_optional : Option Value → Option Value
  sanitize_optional none = none
  sanitize_optional (some v) = some (sanitize_bridge_snapshot v)
