-- ===== src/Entry/Input/Taken.antt =====
-- plugin/index.ts: what the readers of an action's parameters take from a request.
use openclaw_sip_voice.Base.{
  ◌≡◌, refl, ap, ◌∙◌, subst, String, Option, none, some, ◌==◌, if_cases, eq_iff, if◌then◌else◌,
  arith,
}
use openclaw_sip_voice.Protocol.Value.{Value, undefined, str, num, obj, nat, Number, Fields, get}
use openclaw_sip_voice.Config.Text.{trim}
use openclaw_sip_voice.Entry.Input.{
  Checked, given, SipVoiceAction, status, tail, call, speak, hangup, RemotePartyInput, handle_only,
  party, as_record, non_empty, or_required, optional_non_empty_string, required_non_empty_string,
  read_action_text, read_action_value, read_tail_limit, read_remote, choose_remote,
  read_remote_party,
}
use openclaw_sip_voice.Entry.Input.Fits.{bind-given, given_inj}

-- The word for an action.
abbrev word : SipVoiceAction → String
word status = "status"
word tail = "tail"
word call = "call"
word speak = "speak"
word hangup = "hangup"

-- The value of `action` names this action; without one it is `status`.
abbrev pub Names : Value → SipVoiceAction → Type 0
Names undefined action = action ≡ status
Names (str s) action = s ≡ word action
Names _ action = ⊥

-- A text, without the white space around it.
abbrev pub IsText : Value → String → Type 0
IsText (str t) s = s ≡ trim t
IsText _ s = ⊥

abbrev pub IsOptionalText : Value → Option String → Type 0
IsOptionalText undefined o = o ≡ none
IsOptionalText (str t) o = o ≡ some (trim t)
IsOptionalText _ o = ⊥

abbrev pub IsLimitOf : Value → Option Number → Type 0
IsLimitOf undefined o = o ≡ none
IsLimitOf (num n) o = o ≡ some n
IsLimitOf _ o = ⊥

-- Either `target` or `remote`, and not both.
abbrev pub IsRemoteOf : Fields → RemotePartyInput → Type 0
IsRemoteOf fs (handle_only s) = IsText (get "target" fs) s × (get "remote" fs ≡ undefined)
IsRemoteOf fs (party remote) =
    (get "target" fs ≡ undefined)
    × ((gs : Fields) × (get "remote" fs ≡ obj gs)
        × IsText (get "handle" gs) remote.handle
        × IsOptionalText (get "displayName" gs) remote.display_name)

one_word :
    (s w : String) (action other : SipVoiceAction) (rest : Checked SipVoiceAction)
    → w ≡ word other
    → (rest ≡ given action → s ≡ word action)
    → (if s == w then given other else rest) ≡ given action
    → s ≡ word action
one_word s w action other rest m k e =
    if_cases (λ (r : Checked SipVoiceAction). r ≡ given action → s ≡ word action) (s == w)
      {x = given other} {y = rest}
      (λ hit. λ same. (eq_iff s w).0 hit ∙ m ∙ ap word (given_inj same)) (λ _. k) e

read_action_text-word :
    (s : String) (action : SipVoiceAction) → read_action_text s ≡ given action → s ≡ word action
unfolding read_action_text
read_action_text-word s action = one_word s "status" action status _ refl (
    one_word s "tail" action tail _ refl (
      one_word s "call" action call _ refl (
        one_word s "speak" action speak _ refl
          (one_word s "hangup" action hangup _ refl (λ wrong. absurd (cc (wrong)))))))

pub read_action_value-Names :
    (v : Value) (action : SipVoiceAction) → read_action_value v ≡ given action → Names v action
unfolding read_action_value
read_action_value-Names undefined action e = cc (e)
read_action_value-Names (str s) action e = read_action_text-word s action e
read_action_value-Names _ action e = absurd (cc (e))

pub optional-IsOptionalText :
    (v : Value) (name : String) (o : Option String)
    → optional_non_empty_string v name ≡ given o
    → IsOptionalText v o
unfolding optional_non_empty_string non_empty
optional-IsOptionalText undefined name o e = cc (e)
optional-IsOptionalText (str s) name o e =
    if_cases (λ m. m ≡ given o → o ≡ some (trim s)) (trim s == "")
      (λ _. λ wrong. absurd (cc (wrong))) (λ _. λ same. cc (same)) e
optional-IsOptionalText _ name o e = absurd (cc (e))

IsOptionalText-some : (v : Value) (s : String) → IsOptionalText v (some s) → IsText v s
IsOptionalText-some undefined s e = absurd (cc (e))
IsOptionalText-some (str t) s e = cc (e)
IsOptionalText-some _ s e = elim e [ ]

IsOptionalText-none : (v : Value) → IsOptionalText v none → v ≡ undefined
IsOptionalText-none undefined e = refl
IsOptionalText-none (str t) e = absurd (cc (e))
IsOptionalText-none _ e = elim e [ ]

pub required-IsText :
    (v : Value) (name s : String) → required_non_empty_string v name ≡ given s → IsText v s
unfolding required_non_empty_string
required-IsText v name s e =
    let (o, first, second) = bind-given (optional_non_empty_string v name) (or_required name) e in
    found o (optional-IsOptionalText v name o first) second
  where
    found : (o : Option String) → IsOptionalText v o → or_required name o ≡ given s → IsText v s
    found none h e = absurd (cc (e))
    found (some t) h e =
        IsOptionalText-some v s (subst (λ u. IsOptionalText v (some u)) (given_inj e) h)

pub read_tail_limit-IsLimitOf :
    (v : Value) (o : Option Number) → read_tail_limit v ≡ given o → IsLimitOf v o
unfolding read_tail_limit
read_tail_limit-IsLimitOf undefined o e = cc (e)
read_tail_limit-IsLimitOf (num (nat n)) o e = ground arith
read_tail_limit-IsLimitOf _ o e = absurd (cc (e))

read_remote-IsRemoteOf :
    (fs gs : Fields) (r : RemotePartyInput)
    → get "target" fs ≡ undefined
    → get "remote" fs ≡ obj gs
    → read_remote gs ≡ given r
    → IsRemoteOf fs r
unfolding read_remote
read_remote-IsRemoteOf fs gs r no_target remote e =
    let (handle, first, rest) =
      bind-given (required_non_empty_string (get "handle" gs) "remote.handle") _ e in
    let (name, second, last) =
      bind-given (optional_non_empty_string (get "displayName" gs) "remote.displayName") _ rest in
    subst (IsRemoteOf fs) (given_inj last) (
      no_target,
      (
        gs,
        remote,
        required-IsText (get "handle" gs) "remote.handle" handle first,
        optional-IsOptionalText (get "displayName" gs) "remote.displayName" name second,
      ),
    )

choose_remote-IsRemoteOf :
    (fs : Fields) (o : Option String) (v : Value) (r : RemotePartyInput)
    → IsOptionalText (get "target" fs) o
    → get "remote" fs ≡ v
    → choose_remote o v ≡ given r
    → IsRemoteOf fs r
unfolding choose_remote as_record
choose_remote-IsRemoteOf fs (some target) undefined r h k e =
    subst (IsRemoteOf fs) (given_inj e) (IsOptionalText-some (get "target" fs) target h, k)
choose_remote-IsRemoteOf fs (some target) _ r h k e = absurd (cc (e))
choose_remote-IsRemoteOf fs none undefined r h k e = absurd (cc (e))
choose_remote-IsRemoteOf fs none (obj gs) r h k e =
    read_remote-IsRemoteOf fs gs r (IsOptionalText-none (get "target" fs) h) k e
choose_remote-IsRemoteOf fs none _ r h k e = absurd (cc (e))

pub read_remote_party-IsRemoteOf :
    (fs : Fields) (r : RemotePartyInput) → read_remote_party fs ≡ given r → IsRemoteOf fs r
unfolding read_remote_party
read_remote_party-IsRemoteOf fs r e =
    let (target, first, second) =
      bind-given (optional_non_empty_string (get "target" fs) "target") _ e in
    choose_remote-IsRemoteOf fs target (get "remote" fs) r
      (optional-IsOptionalText (get "target" fs) "target" target first) refl second
