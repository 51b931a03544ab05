-- ===== src/Realtime.antt =====
-- plugin/src/realtime.ts: the parameters of a realtime session. The providers of the host, the lookup
-- among them and the session itself are parameters.
pub mod Configured
use Prim.Native.String.{◌++◌}
use openclaw_sip_voice.Base.{Bool, false, String, List, Option, none, some, if◌then◌else◌, ◌==◌}
use openclaw_sip_voice.Protocol.Value.{Fields}
use openclaw_sip_voice.Config.{SipVoiceConfig}

-- What a function returns, or the message of the error that it throws.
pub data Attempt {ℓ} (A : Type ℓ) : Type ℓ where
  done : A → Attempt A
  fails_with : String → Attempt A

-- REALTIME_VOICE_AUDIO_FORMAT_G711_ULAW_8KHZ
pub data AudioFormat : Type 0 where
  g711_ulaw_8khz : AudioFormat

unfoldable pub resolve_audio_format : SipVoiceConfig → Attempt AudioFormat
resolve_audio_format config =
    if config.audio_format == "g711-ulaw-8khz"
    then done g711_ulaw_8khz
    else fails_with ("Unsupported SIP voice audio format: " ++ config.audio_format)

abbrev or_no : Option Bool → Bool
or_no none = false
or_no (some b) = b

-- `FullConfig`, `Provider`, `Sink` and `Rest` are values of the host that are only passed on; `Rest` is
-- what `params.session` holds besides triggerGreetingOnReady.
module _ (FullConfig Provider Sink Rest Session : Type 0) where
  pub record ProviderRequest : Type 0 where
    pub configured_provider_id : String
    pub provider_configs : Fields
    pub cfg : FullConfig
    pub providers : Option (List Provider)
    pub default_model : String
    pub no_registered_provider_message : String

  pub record Resolved : Type 0 where
    pub provider : Provider
    pub provider_config : Fields

  pub record SessionParams : Type 0 where
    pub rest : Option Rest
    pub resolved : Resolved
    pub audio_format : AudioFormat
    pub audio_sink : Sink
    pub instructions : Option String
    pub initial_greeting_instructions : Option String
    pub mark_strategy : String
    pub trigger_greeting_on_ready : Bool

  -- resolveConfiguredRealtimeVoiceProvider and createRealtimeVoiceBridgeSession
  pub record Host : Type 0 where
    pub resolve_provider : ProviderRequest → Attempt Resolved
    pub create_session : SessionParams → Attempt Session

  -- The parameters of createSipVoiceRealtimeBridgeSession.
  pub record Creation : Type 0 where
    pub config : SipVoiceConfig
    pub full_config : FullConfig
    pub audio_sink : Sink
    pub providers : Option (List Provider)
    pub session_rest : Option Rest
    pub session_trigger : Option Bool

  -- The argument of resolveSipVoiceRealtimeProvider's call of the host.
  unfoldable pub provider_request : Creation → ProviderRequest
  provider_request params = record {
    configured_provider_id = params.config.realtime.provider;
    provider_configs = params.config.realtime.providers;
    cfg = params.full_config;
    providers = params.providers;
    default_model = params.config.realtime.model;
    no_registered_provider_message =
        "No configured realtime voice provider registered for sip-voice";
  }

  unfoldable pub session_params : Creation → Resolved → AudioFormat → SessionParams
  session_params params resolved format = record {
    rest = params.session_rest;
    resolved = resolved;
    audio_format = format;
    audio_sink = params.audio_sink;
    instructions = params.config.realtime.instructions;
    initial_greeting_instructions = params.config.realtime.intro_message;
    mark_strategy = "ack-immediately";
    trigger_greeting_on_ready = or_no params.session_trigger;
  }

  unfoldable pub format_found : Host → Creation → Resolved → Attempt AudioFormat → Attempt Session
  unfolding session_params
  format_found host params resolved (done format) =
      host.create_session (session_params params resolved format)
  format_found host params resolved (fails_with message) = fails_with message

  unfoldable pub provider_found : Host → Creation → Attempt Resolved → Attempt Session
  unfolding format_found resolve_audio_format
  provider_found host params (done resolved) =
      format_found host params resolved (resolve_audio_format params.config)
  provider_found host params (fails_with message) = fails_with message

  -- createSipVoiceRealtimeBridgeSession
  unfoldable pub create_realtime_session : Host → Creation → Attempt Session
  unfolding provider_found provider_request
  create_realtime_session host params =
      provider_found host params (host.resolve_provider (provider_request params))
