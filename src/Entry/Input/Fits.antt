-- ===== src/Entry/Input/Fits.antt =====
-- plugin/index.ts: what the readers of an action's parameters let through.
use openclaw_sip_voice.Base.{
  ◌≤◌, ◌≡◌, refl, subst, String, Option, none, some, ◌==◌, if_cases, arith, leb,
}
use openclaw_sip_voice.Protocol.Value.{Value, undefined, num, str, nat, Number, Fields, get}
use openclaw_sip_voice.Config.Text.{trim}
use openclaw_sip_voice.Config.Accepted.{IsTrimmed, trim-IsTrimmed}
use openclaw_sip_voice.Entry.Input.{
  Checked, given, input_error, ◌>>=◌, RemotePartyInput, handle_only, party, as_record, non_empty,
  or_required, optional_non_empty_string, required_non_empty_string, read_tail_limit, read_remote,
  choose_remote, read_remote_party,
}

pub bind-given :
    {A B : Type 0} (m : Checked A) (f : A → Checked B) {b : B}
    → (m >>= f) ≡ given b
    → (a : A) × (m ≡ given a) × (f a ≡ given b)
bind-given (given a) f h = (a, refl, h)
bind-given (input_error message) f h = absurd (cc (h))

pub given_inj : {A : Type 0} {a b : A} → given a ≡ given b → a ≡ b
given_inj e = cc (e)

abbrev pub OptionTrimmed : Option String → Type 0
OptionTrimmed none = Unit
OptionTrimmed (some s) = IsTrimmed s

abbrev pub IsLimit : Option Number → Type 0
IsLimit none = Unit
IsLimit (some (nat n)) = n ≤ 50
IsLimit (some _) = ⊥

abbrev pub IsRemote : RemotePartyInput → Type 0
IsRemote (handle_only s) = IsTrimmed s
IsRemote (party remote) = IsTrimmed remote.handle × OptionTrimmed remote.display_name

pub optional-OptionTrimmed :
    (v : Value) (name : String) (o : Option String)
    → optional_non_empty_string v name ≡ given o
    → OptionTrimmed o
unfolding optional_non_empty_string non_empty
optional-OptionTrimmed undefined name o e = subst OptionTrimmed (given_inj e) tt
optional-OptionTrimmed (str s) name o e =
    if_cases (λ m. m ≡ given o → OptionTrimmed o) (trim s == "") (λ _. λ wrong. absurd (cc (wrong)))
      (λ no. λ same. subst OptionTrimmed (given_inj same) (trim-IsTrimmed s no)) e
optional-OptionTrimmed _ name o e = absurd (cc (e))

or_required-IsTrimmed :
    (name : String) (o : Option String) (s : String)
    → OptionTrimmed o
    → or_required name o ≡ given s
    → IsTrimmed s
or_required-IsTrimmed name none s h e = absurd (cc (e))
or_required-IsTrimmed name (some t) s h e = subst IsTrimmed (given_inj e) h

pub required-IsTrimmed :
    (v : Value) (name s : String) → required_non_empty_string v name ≡ given s → IsTrimmed s
unfolding required_non_empty_string
required-IsTrimmed v name s e =
    let (o, first, second) = bind-given (optional_non_empty_string v name) (or_required name) e in
    or_required-IsTrimmed name o s (optional-OptionTrimmed v name o first) second

pub read_tail_limit-IsLimit :
    (v : Value) (o : Option Number) → read_tail_limit v ≡ given o → IsLimit o
unfolding read_tail_limit
read_tail_limit-IsLimit undefined o e = subst IsLimit (given_inj e) tt
read_tail_limit-IsLimit (num (nat n)) o e =
    if_cases (λ m. m ≡ given o → IsLimit o) (leb n 50)
      (λ fits. λ same. subst IsLimit (given_inj same) (ground (arith, fits)))
      (λ _. λ wrong. absurd (cc (wrong))) e
read_tail_limit-IsLimit _ o e = absurd (cc (e))

read_remote-IsRemote : (fs : Fields) (r : RemotePartyInput) → read_remote fs ≡ given r → IsRemote r
unfolding read_remote
read_remote-IsRemote fs r e =
    let (handle, first, rest) =
      bind-given (required_non_empty_string (get "handle" fs) "remote.handle") _ e in
    let (name, second, last) =
      bind-given (optional_non_empty_string (get "displayName" fs) "remote.displayName") _ rest in
    subst IsRemote (given_inj last) (
      required-IsTrimmed (get "handle" fs) "remote.handle" handle first,
      optional-OptionTrimmed (get "displayName" fs) "remote.displayName" name second,
    )

choose_remote-IsRemote :
    (o : Option String) (v : Value) (r : RemotePartyInput)
    → OptionTrimmed o
    → choose_remote o v ≡ given r
    → IsRemote r
unfolding choose_remote
choose_remote-IsRemote (some target) undefined r h e = subst IsRemote (given_inj e) h
choose_remote-IsRemote (some target) _ r h e = absurd (cc (e))
choose_remote-IsRemote none undefined r h e = absurd (cc (e))
choose_remote-IsRemote none remote r h e =
    let (fs, first, second) = bind-given (as_record remote) read_remote e in
    read_remote-IsRemote fs r second

pub read_remote_party-IsRemote :
    (fs : Fields) (r : RemotePartyInput) → read_remote_party fs ≡ given r → IsRemote r
unfolding read_remote_party
read_remote_party-IsRemote fs r e =
    let (target, first, second) =
      bind-given (optional_non_empty_string (get "target" fs) "target") _ e in
    choose_remote-IsRemote target (get "remote" fs) r
      (optional-OptionTrimmed (get "target" fs) "target" target first) second
