-- ===== src/Entry/Actions/Asked.antt =====
-- plugin/index.ts, runSipVoiceAction: the calls that reach the runtime, from the requests.
use openclaw_sip_voice.Base.{◌≡◌, refl, sym, ap, ◌∙◌, subst, true, some}
use openclaw_sip_voice.Protocol.Value.{Value, undefined, obj, Fields, get}
use openclaw_sip_voice.Entry.Input.{
  given, SipVoiceAction, status, tail, call, speak, hangup, as_record, optional_non_empty_string,
  required_non_empty_string, read_action, read_tail_limit, read_remote_party,
}
use openclaw_sip_voice.Entry.Input.Fits.{bind-given, given_inj}
use openclaw_sip_voice.Entry.Actions.{
  RuntimeCall, get_status, tail_records, place_call, speak_text, hang_up, fulfilled, EntryEnv,
  request_call, run_sip_voice_action,
}
use openclaw_sip_voice.Entry.Actions.Requests.{
  IsWellFormed, action_of, parameters, request_call-Suits, run_sip_voice_action-WasRead,
}
use openclaw_sip_voice.Entry.Input.Taken.{
  Names, IsText, IsOptionalText, IsLimitOf, IsRemoteOf, read_action_value-Names,
  optional-IsOptionalText, required-IsText, read_tail_limit-IsLimitOf, read_remote_party-IsRemoteOf,
}

-- The arguments of a call are the fields of the request.
abbrev pub IsTakenFrom : Fields → RuntimeCall → Type 0
IsTakenFrom fs get_status = Unit
IsTakenFrom fs (tail_records limit) = IsLimitOf (get "limit" fs) limit
IsTakenFrom fs (place_call remote message) =
    IsRemoteOf fs remote × IsOptionalText (get "message" fs) message
IsTakenFrom fs (speak_text call_id message) =
    IsText (get "callId" fs) call_id × IsText (get "message" fs) message
IsTakenFrom fs (hang_up call_id) = IsText (get "callId" fs) call_id

-- The call that a request asks for.
abbrev pub IsAskedBy : Value → RuntimeCall → Type 0
IsAskedBy undefined c = c ≡ get_status
IsAskedBy (obj fs) c = Names (get "action" fs) (action_of c) × IsTakenFrom fs c
IsAskedBy _ c = ⊥

request_call-IsTakenFrom :
    (action : SipVoiceAction) (fs : Fields) (c : RuntimeCall)
    → request_call action fs ≡ given c
    → IsTakenFrom fs c
unfolding request_call
request_call-IsTakenFrom status fs c e = subst (IsTakenFrom fs) (given_inj e) tt
request_call-IsTakenFrom tail fs c e =
    let (limit, first, last) = bind-given (read_tail_limit (get "limit" fs)) _ e in
    subst (IsTakenFrom fs) (given_inj last) (read_tail_limit-IsLimitOf (get "limit" fs) limit first)
request_call-IsTakenFrom call fs c e =
    let (remote, first, rest) = bind-given (read_remote_party fs) _ e in
    let (message, second, last) =
      bind-given (optional_non_empty_string (get "message" fs) "message") _ rest in
    subst (IsTakenFrom fs) (given_inj last) (
      read_remote_party-IsRemoteOf fs remote first,
      optional-IsOptionalText (get "message" fs) "message" message second,
    )
request_call-IsTakenFrom speak fs c e =
    let (id, first, rest) = bind-given (required_non_empty_string (get "callId" fs) "callId") _ e in
    let (message, second, last) =
      bind-given (required_non_empty_string (get "message" fs) "message") _ rest in
    subst (IsTakenFrom fs) (given_inj last) (
      required-IsText (get "callId" fs) "callId" id first,
      required-IsText (get "message" fs) "message" message second,
    )
request_call-IsTakenFrom hangup fs c e =
    let (id, first, last) = bind-given (required_non_empty_string (get "callId" fs) "callId") _ e in
    subst (IsTakenFrom fs) (given_inj last) (required-IsText (get "callId" fs) "callId" id first)

IsAskedBy-read :
    (request : Value) (fs : Fields) (action : SipVoiceAction) (c : RuntimeCall)
    → parameters request ≡ given fs
    → read_action fs ≡ given action
    → action_of c ≡ action
    → IsTakenFrom fs c
    → IsAskedBy request c
unfolding read_action as_record get
IsAskedBy-read undefined fs action c e named same taken =
    let none_there : get "action" fs ≡ undefined = ap (get "action") (sym (given_inj e)) in
    let default : action ≡ status =
      subst (λ v. Names v action) none_there
        (read_action_value-Names (get "action" fs) action named) in
    is_status c (same ∙ default)
  where
    is_status : (c : RuntimeCall) → action_of c ≡ status → c ≡ get_status
    is_status get_status e = refl
    is_status (tail_records limit) e = absurd (cc (e))
    is_status (place_call remote message) e = absurd (cc (e))
    is_status (speak_text call_id message) e = absurd (cc (e))
    is_status (hang_up call_id) e = absurd (cc (e))
IsAskedBy-read (obj gs) fs action c e named same taken =
    subst (λ ks. Names (get "action" ks) (action_of c) × IsTakenFrom ks c) (sym (given_inj e))
      (
        subst (Names (get "action" fs)) (sym same)
            (read_action_value-Names (get "action" fs) action named),
        taken,
      )
IsAskedBy-read _ fs action c e named same taken = absurd (cc (e))

module _ (env : EntryEnv) where
  -- The plugin is enabled, a runtime is there, and the request asks for the call, which is well-formed.
  pub record Permitted (request : Value) (c : RuntimeCall) : Type 0 where
    pub enabled : env.config.enabled ≡ true
    pub available : env.ensure_runtime ≡ some (fulfilled tt)
    pub asked : IsAskedBy request c
    pub well_formed : IsWellFormed c

  -- Whatever the request is, a call reaches the runtime only if the plugin is enabled and has a
  -- runtime. The call is that of the action which the request's field `action` names, or `status` if
  -- there is no such field; its arguments are the request's fields, without the white space around
  -- them; a limit in it is an integer from 0 to 50, and its texts are not empty and have no white space
  -- at their ends.
  pub run_sip_voice_action-Permitted :
      (request : Value) (c : RuntimeCall)
      → (run_sip_voice_action env request).runtime_call ≡ some c
      → Permitted request c
  run_sip_voice_action-Permitted request c e =
      let read = run_sip_voice_action-WasRead env request c e in
      let (fits, same) = request_call-Suits read.action read.fields c read.passed.requested in
      let taken = request_call-IsTakenFrom read.action read.fields c read.passed.requested in
      record {
        enabled = read.passed.enabled;
        available = read.passed.available;
        asked =
            IsAskedBy-read request read.fields read.action c read.is_record read.named same taken;
        well_formed = fits;
      }
