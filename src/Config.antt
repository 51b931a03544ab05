-- ===== src/Config.antt =====
-- plugin/src/config.ts: the configuration of the plugin. The schema that the host builds and the
-- parser of URLs are parameters.
pub mod Text
pub mod Accepted
use Prim.Native.String.{◌++◌ as ◌+++◌}
use openclaw_sip_voice.Base.{
  ℕ, suc, Bool, true, false, String, List, [], ◌∷◌, Option, none, some, if◌then◌else◌, ◌==◌, ◌||◌,
  length,
}
use openclaw_sip_voice.Protocol.Value.{
  Value, undefined, null, bool, num, str, obj, Number, nat, Fields, end, get, as_record, keys,
}
use openclaw_sip_voice.Config.Text.{trim, join}

abbrev pub audio_format_g711_ulaw : String
audio_format_g711_ulaw = "g711-ulaw-8khz"

-- SIP_VOICE_DEFAULTS
abbrev pub default_url : String
default_url = "ws://127.0.0.1:9077"

abbrev pub default_provider : String
default_provider = "google"

abbrev pub default_model : String
default_model = "gemini-3.1-flash-live-preview"

abbrev pub default_tool_policy : String
default_tool_policy = "safe-read-only"

-- SipVoiceRealtimeConfig
pub record RealtimeConfig : Type 0 where
  pub provider : String
  pub model : String
  pub tool_policy : String
  pub providers : Fields
  pub instructions : Option String
  pub intro_message : Option String

-- SipVoiceConfig; `bridge.url` and `audio.format` are fields of their own.
pub record SipVoiceConfig : Type 0 where
  pub enabled : Bool
  pub bridge_url : String
  pub max_concurrent_calls : Number
  pub audio_format : String
  pub realtime : RealtimeConfig

-- An issue that the schema reports, with the parts of its path as texts.
pub record SchemaIssue : Type 0 where
  pub path : List String
  pub message : String

pub data SchemaResult : Type 0 where
  success : Value → SchemaResult
  failures : List SchemaIssue → SchemaResult

-- `safe_parse` is `none` if the schema has no safeParse; `url_protocol` is the protocol of a text as a
-- URL, or `none` if `new URL` throws.
pub record ConfigEnv : Type 0 where
  pub safe_parse : Value → Option SchemaResult
  pub url_protocol : String → Option String

-- A configuration, or the message of the error.
pub data Parsed : Type 0 where
  configured : SipVoiceConfig → Parsed
  config_error : String → Parsed

unfoldable pub read_string : Value → String → String
read_string (str s) fallback = if trim s == "" then fallback else trim s
read_string _ fallback = fallback

unfoldable pub read_optional_string : Value → Option String
read_optional_string (str s) = some s
read_optional_string _ = none

-- value ?? {}
unfoldable pub or_empty : Value → Value
or_empty undefined = obj end
or_empty null = obj end
or_empty v = v

-- The message of what assertWebsocketUrl throws, unless it returns the text.
unfoldable pub websocket_url_error : Option String → Option String
websocket_url_error none = some "bridge.url must be a valid ws:// or wss:// URL"
websocket_url_error (some protocol) =
    if protocol == "ws:" || protocol == "wss:"
    then none
    else some "bridge.url must use ws:// or wss://"

unfoldable pub issue_text : SchemaIssue → String
issue_text issue = issue_path issue.path +++ ": " +++ issue.message
  where
    issue_path : List String → String
    issue_path [] = "<root>"
    issue_path (part ∷ parts) = join "." (part ∷ parts)

abbrev issue_texts : List SchemaIssue → List String
issue_texts [] = []
issue_texts (issue ∷ issues) = issue_text issue ∷ issue_texts issues

unfoldable pub format_config_error : List SchemaIssue → String
format_config_error [] = "invalid sip-voice config"
format_config_error (issue ∷ issues) = join "; " (issue_texts (issue ∷ issues))

-- raw.enabled === undefined ? … : raw.enabled === true
unfoldable pub read_enabled : Value → Bool
read_enabled undefined = true
read_enabled (bool b) = b
read_enabled _ = false

unfoldable pub read_max_calls : Value → Number
read_max_calls (num n) = n
read_max_calls _ = nat 1

unfoldable pub read_realtime : Fields → RealtimeConfig
read_realtime realtime = record {
  provider = read_string (get "provider" realtime) default_provider;
  model = read_string (get "model" realtime) default_model;
  tool_policy = read_string (get "toolPolicy" realtime) default_tool_policy;
  providers = as_record (get "providers" realtime);
  instructions = read_optional_string (get "instructions" realtime);
  intro_message = read_optional_string (get "introMessage" realtime);
}

module _ (env : ConfigEnv) where
  unfoldable pub with_url : Fields → String → String → Option String → Parsed
  unfolding read_realtime
  with_url raw format url (some message) = config_error message
  with_url raw format url none = configured (record {
    enabled = read_enabled (get "enabled" raw);
    bridge_url = url;
    max_concurrent_calls = read_max_calls (get "maxConcurrentCalls" raw);
    audio_format = format;
    realtime = read_realtime (as_record (get "realtime" raw));
  })

  unfoldable pub with_format : Fields → String → Parsed
  unfolding with_url
  with_format raw format =
      let url = read_string (get "url" (as_record (get "bridge" raw))) default_url in
      if format == audio_format_g711_ulaw
      then with_url raw format url (websocket_url_error (env.url_protocol url))
      else config_error "audio.format must be g711-ulaw-8khz"

  unfoldable pub with_result : Option SchemaResult → Parsed
  unfolding with_format
  with_result none = config_error (format_config_error [])
  with_result (some (failures list)) = config_error (format_config_error list)
  with_result (some (success data_)) =
      let raw = as_record data_ in
      with_format raw
        (read_string (get "format" (as_record (get "audio" raw))) audio_format_g711_ulaw)

  -- parseSipVoiceConfig
  unfoldable pub parse_sip_voice_config : Value → Parsed
  unfolding with_result
  parse_sip_voice_config value = with_result (env.safe_parse (or_empty value))

-- SipVoiceConfigSummary
pub record ConfigSummary : Type 0 where
  pub enabled : Bool
  pub bridge_url : String
  pub max_concurrent_calls : Number
  pub audio_format : String
  pub provider : String
  pub model : String
  pub tool_policy : String
  pub instructions : Option String
  pub intro_message : Option String
  pub provider_config_count : ℕ

unfoldable pub summarize_sip_voice_config : SipVoiceConfig → ConfigSummary
summarize_sip_voice_config c = record {
  enabled = c.enabled;
  bridge_url = c.bridge_url;
  max_concurrent_calls = c.max_concurrent_calls;
  audio_format = c.audio_format;
  provider = c.realtime.provider;
  model = c.realtime.model;
  tool_policy = c.realtime.tool_policy;
  instructions = c.realtime.instructions;
  intro_message = c.realtime.intro_message;
  provider_config_count = length (keys c.realtime.providers);
}
