-- ===== src/Entry/Handlers/Shown.antt =====
-- plugin/index.ts: what the handlers show, and what a gateway method runs.
use openclaw_sip_voice.Base.{
  ◌≡◌, refl, sym, ap, ◌∙◌, inl, inr, subst, Bool, true, false, String, some, ◌==◌, if◌then◌else◌,
  eq_refl, Bool-cases,
}
use openclaw_sip_voice.Protocol.Value.{
  Value, undefined, bool, str, obj, arr, Items, nil, cons, Fields, end, field, get,
}
use openclaw_sip_voice.Protocol.Pattern.{occurs_one_of, occurs, strip_prefix, to_lower, is_upper}
use openclaw_sip_voice.Runtime.Snapshot.{
  sensitive_key_re, sanitize_bridge_snapshot, sanitize_items, sanitize_fields,
}
use openclaw_sip_voice.Runtime.Snapshot.Clean.{
  IsClean, IsCleanOption, sanitize_bridge_snapshot-IsClean,
}
use openclaw_sip_voice.Entry.Input.{
  given, ◌>>=◌, SipVoiceAction, status, tail, call, speak, hangup, as_record, read_action,
  read_action_value, read_action_text,
}
use openclaw_sip_voice.Entry.Input.Fits.{given_inj}
use openclaw_sip_voice.Entry.Actions.{
  RuntimeCall, EntryEnv, Outcome, payload, public_error, other_error,
}
use openclaw_sip_voice.Entry.Actions.Requests.{
  action_of, IsWellFormed, parameters, request_call-Suits, run_sip_voice_action-WasRead,
}
use openclaw_sip_voice.Entry.Handlers.{
  sanitize_public_payload, sanitize_public_items, sanitize_public_fields, error_payload,
  tool_result, response, action_text, spread_with, spread_items, gateway_request, gateway_method,
  gateway_response, tool_execute, printed, CliCommand, cli_action,
}

module _ (redact : String → String) where
  mutual
    unfolding sanitize_public_payload sanitize_public_items sanitize_public_fields
        sanitize_bridge_snapshot sanitize_items sanitize_fields

    -- The runtime sanitizes in the same way.
    same_payload :
        (v : Value) → sanitize_public_payload redact v ≡ sanitize_bridge_snapshot redact v
    same_payload (str s) = refl
    same_payload (arr vs) = ap arr (same_items vs)
    same_payload (obj fs) = ap obj (same_fields fs)
    same_payload _ = refl

    same_items : (vs : Items) → sanitize_public_items redact vs ≡ sanitize_items redact vs
    same_items nil = refl
    same_items (cons v vs) = rw (same_payload v, same_items vs) refl

    same_fields : (fs : Fields) → sanitize_public_fields redact fs ≡ sanitize_fields redact fs
    same_fields end = refl
    same_fields (field key v fs) = rw (same_payload v, same_fields fs) refl

  sanitize_public_payload-IsClean : (v : Value) → IsClean redact (sanitize_public_payload redact v)
  sanitize_public_payload-IsClean v =
      subst (IsClean redact) (sym (same_payload v)) (sanitize_bridge_snapshot-IsClean redact v)

  flag-IsClean : (b : Bool) → IsClean redact (if b then bool true else undefined)
  flag-IsClean true = tt
  flag-IsClean false = tt

  error_payload-IsClean :
      (message : String) (is_public : Bool)
      → IsClean redact (error_payload redact message is_public)
  unfolding error_payload sensitive_key_re occurs_one_of occurs strip_prefix to_lower is_upper
  error_payload-IsClean message is_public =
      (inr (refl, (message, refl)), (inr (refl, flag-IsClean is_public), tt))

  tool_result-IsClean : (o : Outcome) → IsClean redact (tool_result redact o)
  unfolding tool_result
  tool_result-IsClean (payload v) = sanitize_public_payload-IsClean v
  tool_result-IsClean (public_error message) = sanitize_public_payload-IsClean _
  tool_result-IsClean (other_error message) = sanitize_public_payload-IsClean _

  response-IsClean : (o : Outcome) → IsClean redact (response redact o).1
  unfolding response
  response-IsClean (payload v) = sanitize_public_payload-IsClean v
  response-IsClean (public_error message) = error_payload-IsClean message true
  response-IsClean (other_error message) = error_payload-IsClean message false

  printed-IsCleanOption : (o : Outcome) → IsCleanOption redact (printed redact o)
  unfolding printed
  printed-IsCleanOption (payload v) = sanitize_public_payload-IsClean v
  printed-IsCleanOption (public_error message) = tt
  printed-IsCleanOption (other_error message) = tt

get-spread_with : (key : String) (v : Value) (fs : Fields) → get key (spread_with key v fs) ≡ v
unfolding get spread_with
get-spread_with key v end = rw (eq_refl key) refl
get-spread_with key v (field k w fs) =
    let ih = get-spread_with key v fs in
    elim (Bool-cases (k == key)) [ inl hit ↦ rw (hit, hit) refl | inr miss ↦ rw (miss, miss) ih ]

read_action_text-action_text :
    (action : SipVoiceAction) → read_action_value (str (action_text action)) ≡ given action
unfolding read_action_value read_action_text
read_action_text-action_text status = refl
read_action_text-action_text tail = refl
read_action_text-action_text call = refl
read_action_text-action_text speak = refl
read_action_text-action_text hangup = refl

module _ (env : EntryEnv) where
  spread_action :
      (action : SipVoiceAction) (fs : Fields)
      → read_action (spread_with "action" (str (action_text action)) fs) ≡ given action
  unfolding read_action
  spread_action action fs =
      ap read_action_value (get-spread_with "action" (str (action_text action)) fs)
      ∙ read_action_text-action_text action

  gateway_request-action :
      (action : SipVoiceAction) (params : Value)
      → (parameters (gateway_request env action params) >>= read_action) ≡ given action
  unfolding gateway_request as_record spread_with
  gateway_request-action action (obj fs) = spread_action action fs
  gateway_request-action action (arr vs) = spread_action action (spread_items env 0 vs)
  gateway_request-action action _ = spread_action action end

  -- Whatever the parameters of a gateway method are, also if they name another action, a call that it
  -- makes on the runtime is that of the method's own action, and well-formed, and it makes none if the
  -- plugin is disabled.
  pub gateway_method-action :
      (action : SipVoiceAction) (params : Value) (c : RuntimeCall)
      → (gateway_method env action params).runtime_call ≡ some c
      → (action_of c ≡ action) × IsWellFormed c × (env.config.enabled ≡ true)
  unfolding gateway_method
  gateway_method-action action params c e =
      let p = run_sip_voice_action-WasRead env (gateway_request env action params) c e in
      let (fits, same) = request_call-Suits p.action p.fields c p.passed.requested in
      let named = ap (λ m. m >>= read_action) p.is_record ∙ p.named in
      (same ∙ given_inj (sym named ∙ gateway_request-action action params), fits, p.passed.enabled)

  -- Whatever the request and the answers of the runtime are, what the tool returns, what a gateway
  -- method responds and what the command line prints holds the word "[redacted]" under every sensitive
  -- key, and otherwise only texts that redactSensitiveText made, at every depth.
  pub handlers-IsClean :
      (action : SipVoiceAction) (request params : Value) (command : CliCommand)
      → IsClean env.redact (tool_execute env request)
        × IsClean env.redact (gateway_response env action params).1
        × IsCleanOption env.redact (printed env.redact (cli_action env command).outcome)
  unfolding tool_execute gateway_response
  handlers-IsClean action request params command = (
    tool_result-IsClean env.redact _,
    response-IsClean env.redact _,
    printed-IsCleanOption env.redact _,
  )
