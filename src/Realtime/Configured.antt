-- ===== src/Realtime/Configured.antt =====
-- plugin/src/realtime.ts: the sessions of a configuration that parseSipVoiceConfig returned.
use openclaw_sip_voice.Base.{◌≡◌, refl, ◌∙◌, ap}
use openclaw_sip_voice.Protocol.Value.{Value}
use openclaw_sip_voice.Config.{ConfigEnv, SipVoiceConfig, configured, parse_sip_voice_config}
use openclaw_sip_voice.Config.Accepted.{ChecksMax, parse_sip_voice_config-IsSound}
use openclaw_sip_voice.Realtime.{
  done, g711_ulaw_8khz, resolve_audio_format, Resolved, Host, Creation, provider_request,
  session_params, format_found, provider_found, create_realtime_session,
}

resolve_audio_format-done :
    (c : SipVoiceConfig)
    → c.audio_format ≡ "g711-ulaw-8khz"
    → resolve_audio_format c ≡ done g711_ulaw_8khz
unfolding resolve_audio_format
resolve_audio_format-done c e = rw e refl

module _ (FullConfig Provider Sink Rest Session : Type 0) where
  -- With a configuration that parseSipVoiceConfig returned, and a provider that the host finds, the
  -- session is created: the audio format is never refused.
  pub create_realtime_session-configured :
      (env : ConfigEnv) (value : Value) (c : SipVoiceConfig)
      (host : Host FullConfig Provider Sink Rest Session)
      (params : Creation FullConfig Provider Sink Rest Session)
      (resolved : Resolved FullConfig Provider Sink Rest Session)
      → ChecksMax env
      → parse_sip_voice_config env value ≡ configured c
      → params.config ≡ c
      → host.resolve_provider (provider_request FullConfig Provider Sink Rest Session params)
        ≡ done resolved
      → create_realtime_session FullConfig Provider Sink Rest Session host params
        ≡ host.create_session
            (session_params FullConfig Provider Sink Rest Session params resolved g711_ulaw_8khz)
  unfolding create_realtime_session provider_found format_found
  create_realtime_session-configured env value c host params resolved m parsed same found =
      let sound = parse_sip_voice_config-IsSound env m value c parsed in
      let format =
        resolve_audio_format-done params.config (ap (λ d. d.audio_format) same ∙ sound.format) in
      rw (found, format) refl
