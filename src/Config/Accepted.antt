-- ===== src/Config/Accepted.antt =====
-- plugin/src/config.ts: what holds of a configuration that parseSipVoiceConfig returns.
use Prim.Native.Char.{Char, code}
use Prim.Native.String.{[], ◌∷◌}
use openclaw_sip_voice.Base.{
  ◌≤◌, ◌≡◌, refl, ap, ◌∙◌, ◌⊎◌, inl, inr, false, String, Option, none, some, ◌==◌, if_cases,
  Bool-cases, arith, eq_iff, subst,
}
use openclaw_sip_voice.Protocol.Value.{
  Value, undefined, num, str, nat, Number, Fields, get, as_record,
}
use openclaw_sip_voice.Config.Text.{is_space, trim_start, in_front, trim_end, trim}
use openclaw_sip_voice.Config.{
  audio_format_g711_ulaw, default_url, default_provider, default_model, default_tool_policy,
  SipVoiceConfig, SchemaResult, success, failures, ConfigEnv, configured, read_string, or_empty,
  websocket_url_error, read_max_calls, read_realtime, with_url, with_format, with_result,
  parse_sip_voice_config,
}

-- No white space in front.
abbrev HeadFits : String → Type 0
HeadFits [] = Unit
HeadFits (c ∷ s) = is_space (code c) ≡ false

trim_start-HeadFits : (s : String) → HeadFits (trim_start s)
unfolding trim_start
trim_start-HeadFits [] = tt
trim_start-HeadFits (c ∷ s) =
    if_cases HeadFits (is_space (code c)) (λ _. trim_start-HeadFits s) (λ no. no)

trim_start-same : (s : String) → HeadFits s → trim_start s ≡ s
unfolding trim_start
trim_start-same [] h = refl
trim_start-same (c ∷ s) h = rw h refl

in_front-HeadFits : (c : Char) (s : String) → is_space (code c) ≡ false → HeadFits (in_front c s)
unfolding in_front
in_front-HeadFits c [] h = rw h h
in_front-HeadFits c (d ∷ s) h = h

trim_end-HeadFits : (s : String) → HeadFits s → HeadFits (trim_end s)
unfolding trim_end
trim_end-HeadFits [] h = tt
trim_end-HeadFits (c ∷ s) h = in_front-HeadFits c (trim_end s) h

trim_end-in_front :
    (c : Char) (s : String) → trim_end s ≡ s → trim_end (in_front c s) ≡ in_front c s
unfolding trim_end in_front
trim_end-in_front c [] h =
    if_cases (λ t. trim_end t ≡ t) (is_space (code c)) (λ _. refl) (λ no. rw no refl)
trim_end-in_front c (d ∷ s) h = ap (in_front c) h

trim_end-trim_end : (s : String) → trim_end (trim_end s) ≡ trim_end s
unfolding trim_end
trim_end-trim_end [] = refl
trim_end-trim_end (c ∷ s) = trim_end-in_front c (trim_end s) (trim_end-trim_end s)

pub trim-trim : (s : String) → trim (trim s) ≡ trim s
unfolding trim
trim-trim s =
    ap trim_end (
      trim_start-same (trim_end (trim_start s))
        (trim_end-HeadFits (trim_start s) (trim_start-HeadFits s)))
    ∙ trim_end-trim_end (trim_start s)

-- A text with something in it and without white space at either end.
abbrev pub IsTrimmed : String → Type 0
IsTrimmed s = (trim s ≡ s) × ((s == "") ≡ false)

pub trim-IsTrimmed : (s : String) → (trim s == "") ≡ false → IsTrimmed (trim s)
trim-IsTrimmed s h = (trim-trim s, h)

read_string-IsTrimmed :
    (v : Value) (fallback : String) → IsTrimmed fallback → IsTrimmed (read_string v fallback)
unfolding read_string
read_string-IsTrimmed (str s) fallback h =
    if_cases IsTrimmed (trim s == "") (λ _. h) (λ no. trim-IsTrimmed s no)
read_string-IsTrimmed _ fallback h = h

-- The schema's word on maxConcurrentCalls: an integer from 1, if it is there.
abbrev pub MaxFits : Value → Type 0
MaxFits undefined = Unit
MaxFits (num (nat n)) = 1 ≤ n
MaxFits _ = ⊥

abbrev pub CountsCalls : Number → Type 0
CountsCalls (nat n) = 1 ≤ n
CountsCalls _ = ⊥

read_max_calls-CountsCalls : (v : Value) → MaxFits v → CountsCalls (read_max_calls v)
unfolding read_max_calls
read_max_calls-CountsCalls undefined h = omega arith
read_max_calls-CountsCalls (num (nat n)) h = h
read_max_calls-CountsCalls (num _) h = elim h [ ]
read_max_calls-CountsCalls _ h = elim h [ ]

configured_inj : {c d : SipVoiceConfig} → configured c ≡ configured d → c ≡ d
configured_inj e = cc (e)

google : IsTrimmed default_provider
unfolding trim trim_start trim_end in_front is_space
google = (refl, refl)

model : IsTrimmed default_model
unfolding trim trim_start trim_end in_front is_space
model = (refl, refl)

policy : IsTrimmed default_tool_policy
unfolding trim trim_start trim_end in_front is_space
policy = (refl, refl)

local_url : IsTrimmed default_url
unfolding trim trim_start trim_end in_front is_space
local_url = (refl, refl)

module _ (env : ConfigEnv) where
  -- What the plugin can rely on.
  pub record IsSound (c : SipVoiceConfig) : Type 0 where
    pub format : c.audio_format ≡ "g711-ulaw-8khz"
    pub websocket :
        (env.url_protocol c.bridge_url ≡ some "ws:") ⊎ (env.url_protocol c.bridge_url ≡ some "wss:")
    pub counts : CountsCalls c.max_concurrent_calls
    pub url_trimmed : IsTrimmed c.bridge_url
    pub provider_trimmed : IsTrimmed c.realtime.provider
    pub model_trimmed : IsTrimmed c.realtime.model
    pub tool_policy_trimmed : IsTrimmed c.realtime.tool_policy

  -- The schema does what it says on maxConcurrentCalls.
  abbrev pub ChecksMax : Type 0
  ChecksMax =
      (value accepted : Value)
      → env.safe_parse value ≡ some (success accepted)
      → MaxFits (get "maxConcurrentCalls" (as_record accepted))

  websocket_of :
      (o : Option String) → websocket_url_error o ≡ none → (o ≡ some "ws:") ⊎ (o ≡ some "wss:")
  unfolding websocket_url_error
  websocket_of none e = absurd (cc (e))
  websocket_of (some protocol) e = elim (Bool-cases (protocol == "ws:")) [
    | inl hit ↦ inl (ap some ((eq_iff protocol "ws:").0 hit))
    | inr miss ↦ inr (ap some ((eq_iff protocol "wss:").0 (ground (arith, e, miss))))
  ]

  with_url-IsSound :
      (raw : Fields) (format url : String) (o : Option String) (c : SipVoiceConfig)
      → format ≡ "g711-ulaw-8khz"
      → IsTrimmed url
      → (o ≡ none → (env.url_protocol url ≡ some "ws:") ⊎ (env.url_protocol url ≡ some "wss:"))
      → MaxFits (get "maxConcurrentCalls" raw)
      → with_url env raw format url o ≡ configured c
      → IsSound c
  unfolding with_url read_realtime
  with_url-IsSound raw format url (some message) c f t w m e = absurd (cc (e))
  with_url-IsSound raw format url none c f t w m e =
      let realtime = as_record (get "realtime" raw) in
      subst IsSound (configured_inj e) (record {
        format = f;
        websocket = w refl;
        counts = read_max_calls-CountsCalls _ m;
        url_trimmed = t;
        provider_trimmed = read_string-IsTrimmed (get "provider" realtime) default_provider google;
        model_trimmed = read_string-IsTrimmed (get "model" realtime) default_model model;
        tool_policy_trimmed =
            read_string-IsTrimmed (get "toolPolicy" realtime) default_tool_policy policy;
      })

  with_result-IsSound :
      (o : Option SchemaResult) (c : SipVoiceConfig)
      → ((accepted : Value)
          → o ≡ some (success accepted)
          → MaxFits (get "maxConcurrentCalls" (as_record accepted)))
      → with_result env o ≡ configured c
      → IsSound c
  unfolding with_result with_format
  with_result-IsSound none c m e = absurd (cc (e))
  with_result-IsSound (some (failures list)) c m e = absurd (cc (e))
  with_result-IsSound (some (success accepted)) c m e =
      let raw = as_record accepted in
      let format =
        read_string (get "format" (as_record (get "audio" raw))) audio_format_g711_ulaw in
      let url = read_string (get "url" (as_record (get "bridge" raw))) default_url in
      if_cases (λ r. r ≡ configured c → IsSound c) (format == audio_format_g711_ulaw)
        (λ hit.
          with_url-IsSound raw format url (websocket_url_error (env.url_protocol url)) c
            ((eq_iff format audio_format_g711_ulaw).0 hit)
            (read_string-IsTrimmed (get "url" (as_record (get "bridge" raw))) default_url local_url)
            (websocket_of (env.url_protocol url)) (m accepted refl))
        (λ _. λ wrong. absurd (cc (wrong))) e

  -- If the schema does what it says on maxConcurrentCalls, then a configuration that is returned has
  -- the one audio format and a URL whose protocol is that of a websocket, allows at least one call,
  -- and its URL, provider, model and tool policy are not empty and have no white space at their ends.
  pub parse_sip_voice_config-IsSound :
      ChecksMax
      → (value : Value) (c : SipVoiceConfig) → parse_sip_voice_config env value ≡ configured c
      → IsSound c
  unfolding parse_sip_voice_config
  parse_sip_voice_config-IsSound m value c e =
      with_result-IsSound (env.safe_parse (or_empty value)) c (m (or_empty value)) e
