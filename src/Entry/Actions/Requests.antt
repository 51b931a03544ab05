-- ===== src/Entry/Actions/Requests.antt =====
-- plugin/index.ts, runSipVoiceAction: the calls that reach the runtime.
use openclaw_sip_voice.Base.{◌≡◌, refl, subst, true, Option, none, some, if_cases}
use openclaw_sip_voice.Protocol.Value.{Value, undefined, Fields, end, get}
use openclaw_sip_voice.Config.Accepted.{IsTrimmed}
use openclaw_sip_voice.Entry.Input.{
  Checked, given, input_error, SipVoiceAction, status, tail, call, speak, hangup, as_record,
  optional_non_empty_string, required_non_empty_string, read_action, read_tail_limit,
  read_remote_party,
}
use openclaw_sip_voice.Entry.Actions.{
  RuntimeCall, get_status, tail_records, place_call, speak_text, hang_up, Reply, fulfilled,
  rejected, EntryEnv, Performed, request_call, perform, with_runtime, required, status_found, act,
  after_action, act_on, run_sip_voice_action,
}
use openclaw_sip_voice.Entry.Input.Fits.{
  bind-given, given_inj, OptionTrimmed, IsLimit, IsRemote, optional-OptionTrimmed,
  required-IsTrimmed, read_tail_limit-IsLimit, read_remote_party-IsRemote,
}

-- The arguments are in range: a limit is an integer from 0 to 50, and each text is not empty and has
-- no white space at its ends.
abbrev pub IsWellFormed : RuntimeCall → Type 0
IsWellFormed get_status = Unit
IsWellFormed (tail_records limit) = IsLimit limit
IsWellFormed (place_call remote message) = IsRemote remote × OptionTrimmed message
IsWellFormed (speak_text call_id message) = IsTrimmed call_id × IsTrimmed message
IsWellFormed (hang_up call_id) = IsTrimmed call_id

-- The action that makes the call.
abbrev pub action_of : RuntimeCall → SipVoiceAction
action_of get_status = status
action_of (tail_records limit) = tail
action_of (place_call remote message) = call
action_of (speak_text call_id message) = speak
action_of (hang_up call_id) = hangup

-- A well-formed call of the action.
abbrev pub Suits : SipVoiceAction → RuntimeCall → Type 0
Suits action c = IsWellFormed c × (action_of c ≡ action)

pub request_call-Suits :
    (action : SipVoiceAction) (fs : Fields) (c : RuntimeCall)
    → request_call action fs ≡ given c
    → Suits action c
unfolding request_call
request_call-Suits status fs c e = subst (Suits status) (given_inj e) (tt, refl)
request_call-Suits tail fs c e =
    let (limit, first, last) = bind-given (read_tail_limit (get "limit" fs)) _ e in
    subst (Suits tail) (given_inj last) (read_tail_limit-IsLimit (get "limit" fs) limit first, refl)
request_call-Suits call fs c e =
    let (remote, first, rest) = bind-given (read_remote_party fs) _ e in
    let (message, second, last) =
      bind-given (optional_non_empty_string (get "message" fs) "message") _ rest in
    subst (Suits call) (given_inj last) (
      (
        read_remote_party-IsRemote fs remote first,
        optional-OptionTrimmed (get "message" fs) "message" message second,
      ),
      refl,
    )
request_call-Suits speak fs c e =
    let (id, first, rest) = bind-given (required_non_empty_string (get "callId" fs) "callId") _ e in
    let (message, second, last) =
      bind-given (required_non_empty_string (get "message" fs) "message") _ rest in
    subst (Suits speak) (given_inj last) (
      (
        required-IsTrimmed (get "callId" fs) "callId" id first,
        required-IsTrimmed (get "message" fs) "message" message second,
      ),
      refl,
    )
request_call-Suits hangup fs c e =
    let (id, first, last) = bind-given (required_non_empty_string (get "callId" fs) "callId") _ e in
    subst (Suits hangup) (given_inj last)
      (required-IsTrimmed (get "callId" fs) "callId" id first, refl)

-- The parameters of a request: none if there is no request.
abbrev pub parameters : Value → Checked Fields
parameters undefined = given end
parameters request = as_record request

module _ (env : EntryEnv) where
  -- The plugin is enabled, a runtime is there, and the call is the one that the parameters give.
  pub record Passed (action : SipVoiceAction) (fs : Fields) (c : RuntimeCall) : Type 0 where
    pub enabled : env.config.enabled ≡ true
    pub available : env.ensure_runtime ≡ some (fulfilled tt)
    pub requested : request_call action fs ≡ given c

  perform-call :
      (m : Checked RuntimeCall) (c : RuntimeCall)
      → (perform env m).runtime_call ≡ some c
      → m ≡ given c
  unfolding perform
  perform-call (given d) c e = cc (e)
  perform-call (input_error message) c e = absurd (cc (e))

  with_runtime-Passed :
      (o : Option (Reply (Unit {0}))) (action : SipVoiceAction) (fs : Fields) (c : RuntimeCall)
      → env.config.enabled ≡ true
      → env.ensure_runtime ≡ o
      → (with_runtime env o action fs).runtime_call ≡ some c
      → Passed action fs c
  unfolding with_runtime
  with_runtime-Passed none action fs c h k e = absurd (cc (e))
  with_runtime-Passed (some (rejected message)) action fs c h k e = absurd (cc (e))
  with_runtime-Passed (some (fulfilled tt)) action fs c h k e = record {
    enabled = h;
    available = k;
    requested = perform-call (request_call action fs) c e;
  }

  required-Passed :
      (action : SipVoiceAction) (fs : Fields) (c : RuntimeCall)
      → (required env action fs).runtime_call ≡ some c
      → Passed action fs c
  unfolding required
  required-Passed action fs c e =
      if_cases (λ (p : Performed). p.runtime_call ≡ some c → Passed action fs c) env.config.enabled
        {x = with_runtime env env.ensure_runtime action fs}
        (λ on. λ same. with_runtime-Passed env.ensure_runtime action fs c on refl same)
        (λ _. λ wrong. absurd (cc (wrong))) e

  status_found-Passed :
      (o : Option (Reply (Unit {0}))) (fs : Fields) (c : RuntimeCall)
      → (status_found env o fs).runtime_call ≡ some c
      → Passed status fs c
  unfolding status_found
  status_found-Passed none fs c e = absurd (cc (e))
  status_found-Passed (some reply) fs c e = required-Passed status fs c e

  act-Passed :
      (action : SipVoiceAction) (fs : Fields) (c : RuntimeCall)
      → (act env action fs).runtime_call ≡ some c
      → Passed action fs c
  unfolding act
  act-Passed status fs c e =
      if_cases (λ (p : Performed). p.runtime_call ≡ some c → Passed status fs c) env.config.enabled
        {x = status_found env env.ensure_runtime fs}
        (λ _. λ same. status_found-Passed env.ensure_runtime fs c same)
        (λ _. λ wrong. absurd (cc (wrong))) e
  act-Passed tail fs c e = required-Passed tail fs c e
  act-Passed call fs c e = required-Passed call fs c e
  act-Passed speak fs c e = required-Passed speak fs c e
  act-Passed hangup fs c e = required-Passed hangup fs c e

  -- The call of a request whose parameters and action could be read.
  pub record WasRead (request : Value) (c : RuntimeCall) : Type 0 where
    pub fields : Fields
    pub action : SipVoiceAction
    pub is_record : parameters request ≡ given fields
    pub named : read_action fields ≡ given action
    pub passed : Passed action fields c

  act_on-Passed :
      (m : Checked Fields) (c : RuntimeCall)
      → (act_on env m).runtime_call ≡ some c
      → (fs : Fields) × (action : SipVoiceAction) × (m ≡ given fs)
        × (read_action fs ≡ given action)
        × Passed action fs c
  unfolding act_on after_action
  act_on-Passed (input_error message) c e = absurd (cc (e))
  act_on-Passed (given fs) c e =
      let (action, named, passed) = after_action-Passed (read_action fs) e in
      (fs, action, refl, named, passed)
    where
      after_action-Passed :
          (m : Checked SipVoiceAction)
          → (after_action env m fs).runtime_call ≡ some c
          → (action : SipVoiceAction) × (m ≡ given action) × Passed action fs c
      after_action-Passed (input_error message) e = absurd (cc (e))
      after_action-Passed (given action) e = (action, refl, act-Passed action fs c e)

  pub run_sip_voice_action-WasRead :
      (request : Value) (c : RuntimeCall)
      → (run_sip_voice_action env request).runtime_call ≡ some c
      → WasRead request c
  unfolding run_sip_voice_action
  run_sip_voice_action-WasRead request c e =
      let (fs, action, first, named, passed) =
        act_on-Passed (parameters request) c (same_call request e) in
      record { fields = fs; action = action; is_record = first; named = named; passed = passed }
    where
      same_call :
          (request : Value)
          → (run_sip_voice_action env request).runtime_call ≡ some c
          → (act_on env (parameters request)).runtime_call ≡ some c
      same_call undefined e = e
      same_call _ e = e
