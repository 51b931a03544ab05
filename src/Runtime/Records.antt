-- ===== src/Runtime/Records.antt =====
-- plugin/src/runtime.ts: the records of recent events and errors.
pub mod Tail
use openclaw_sip_voice.Base.{
  ℕ, suc, ◌+◌, ◌-◌, min, max, Bool, true, false, String, List, [], ◌∷◌, ◌++◌, Option, none, some,
  if◌then◌else◌, ltb, eqb, length, drop,
}
use openclaw_sip_voice.Protocol.Value.{
  Number, nat, neg, frac, infinity, minus_infinity, nan, Value, undefined, str,
}
use openclaw_sip_voice.Runtime.State.{Env, State, EventRecord, ErrorRecord}

abbrev pub recent_record_limit : ℕ
recent_record_limit = 50

abbrev pub default_tail_limit : ℕ
default_tail_limit = 20

-- pushRecent: `splice(0, n)` drops the first n.
unfoldable pub push_recent {ℓ} : {A : Type ℓ} → List A → A → List A
push_recent records record' =
    let pushed = records ++ record' ∷ [] in
    if ltb recent_record_limit (length pushed)
    then drop (length pushed - recent_record_limit) pushed
    else pushed

-- Math.max(0, Math.min(50, whole)) of a number that is not negative.
abbrev clamp : ℕ → ℕ
clamp whole = max 0 (min recent_record_limit whole)

-- limitFromTailRequest; `none` is `undefined`. What `Math.trunc` leaves below 0 is raised to 0.
unfoldable pub limit_from_tail_request : Option Number → ℕ
limit_from_tail_request (some (nat n)) = clamp n
limit_from_tail_request (some (neg n)) = 0
limit_from_tail_request (some (frac false whole tag)) = clamp whole
limit_from_tail_request (some (frac true whole tag)) = 0
limit_from_tail_request _ = default_tail_limit

-- records.slice(-n), for 0 < n
unfoldable pub last_records {ℓ} : {A : Type ℓ} → ℕ → List A → List A
last_records n records = drop (length records - n) records

-- One half of `tail`.
unfoldable pub tail_of {ℓ} : {A : Type ℓ} → ℕ → List A → List A
tail_of normalized records = if eqb normalized 0 then [] else last_records normalized records

-- The `params` of recordEvent.
pub record EventParams : Type 0 where
  pub call_id : Option String
  pub message : Option String
  pub details : Option (List (String × Value))

abbrev pub for_call : String → List (String × Value) → EventParams
for_call id details = record { call_id = some id; message = none; details = some details }

abbrev pub bare_call : String → EventParams
bare_call id = record { call_id = some id; message = none; details = none }

abbrev pub of_details : List (String × Value) → EventParams
of_details details = record { call_id = none; message = none; details = some details }

abbrev pub no_params : EventParams
no_params = record { call_id = none; message = none; details = none }

-- The `context` of recordError.
pub record ErrorContext : Type 0 where
  pub call_id : Option String
  pub code : Option String
  pub fatal : Option Bool

abbrev pub in_call : String → String → ErrorContext
in_call id code = record { call_id = some id; code = some code; fatal = none }

abbrev pub with_code : String → ErrorContext
with_code code = record { call_id = none; code = some code; fatal = none }

module _ (env : Env) where
  unfoldable pub redact_optional : Option String → Option String
  redact_optional none = none
  redact_optional (some s) = some (env.redact s)

  -- The filter and the map over the entries of `details`.
  clean_details : List (String × Value) → List (String × Value)
  clean_details [] = []
  clean_details ((key, undefined) ∷ details) = clean_details details
  clean_details ((key, str s) ∷ details) = (key, str (env.redact s)) ∷ clean_details details
  clean_details ((key, value) ∷ details) = (key, value) ∷ clean_details details

  clean_optional : Option (List (String × Value)) → Option (List (String × Value))
  clean_optional none = none
  clean_optional (some details) = some (clean_details details)

  -- recordEvent
  unfoldable pub record_event : String → EventParams → State → State
  unfolding redact_optional clean_details clean_optional
  record_event type params s = record s {
    recent_events = push_recent s.recent_events (record {
      at = env.now s.clock_reads;
      type = type;
      call_id = params.call_id;
      message = redact_optional params.message;
      details = clean_optional params.details;
    });
    clock_reads = suc s.clock_reads;
  }

  -- recordError, of an error with this message; no caller gives a message in the context, and the
  -- logger is left out. It returns the error.
  unfoldable pub record_error : String → ErrorContext → State → State
  record_error message context s = record s {
    recent_errors = push_recent s.recent_errors (record {
      at = env.now s.clock_reads;
      message = env.redact message;
      call_id = context.call_id;
      code = context.code;
      fatal = context.fatal;
    });
    clock_reads = suc s.clock_reads;
  }
