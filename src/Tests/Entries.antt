-- ===== src/Tests/Entries.antt =====
-- plugin/src/config.ts and plugin/index.ts on concrete inputs.
use openclaw_sip_voice.Base.{
  subst, ◌≡◌, refl, true, String, Option, none, some, ◌==◌, if◌then◌else◌,
}
use openclaw_sip_voice.Protocol.Value.{Value, undefined, str, nat, obj, end, field, get, as_record}
use openclaw_sip_voice.Runtime.Snapshot.Clean.{IsClean, IsCleanOption}
use openclaw_sip_voice.Config.{
  SipVoiceConfig, ConfigEnv, success, configured, read_string, read_enabled, read_max_calls,
  read_realtime, read_optional_string, or_empty, websocket_url_error, with_url, with_format,
  with_result, parse_sip_voice_config,
}
use openclaw_sip_voice.Config.Text.{is_space, trim_start, trim_end, in_front, trim}
use openclaw_sip_voice.Config.Accepted.{IsSound, MaxFits, ChecksMax, parse_sip_voice_config-IsSound}
use openclaw_sip_voice.Entry.Input.{
  tail, read_action, read_action_value, read_action_text, read_tail_limit, non_empty,
  optional_non_empty_string, required_non_empty_string, as_record as checked_record,
}
use openclaw_sip_voice.Entry.Actions.{
  tail_records, hang_up, EntryEnv, fulfilled, run_sip_voice_action, act_on, after_action, act,
  required, with_runtime, perform, request_call,
}
use openclaw_sip_voice.Entry.Actions.Asked.{Permitted, run_sip_voice_action-Permitted}
use openclaw_sip_voice.Entry.Handlers.{
  gateway_request, spread_with, gateway_method, tool_execute, gateway_response, printed, cli_action,
  cli_tail,
}
use openclaw_sip_voice.Entry.Handlers.Shown.{gateway_method-action, handlers-IsClean}

abbrev only_protocol : String → Option String
only_protocol url = if url == "ws://127.0.0.1:9077" then some "ws:" else none

-- The schema takes the empty object.
abbrev small_env : ConfigEnv
small_env = record { safe_parse = λ value. some (success (obj end)); url_protocol = only_protocol }

abbrev default_config : SipVoiceConfig
default_config = record {
  enabled = true;
  bridge_url = "ws://127.0.0.1:9077";
  max_concurrent_calls = nat 1;
  audio_format = "g711-ulaw-8khz";
  realtime = record {
    provider = "google";
    model = "gemini-3.1-flash-live-preview";
    tool_policy = "safe-read-only";
    providers = end;
    instructions = none;
    intro_message = none;
  };
}

defaults_parsed : parse_sip_voice_config small_env undefined ≡ configured default_config
unfolding parse_sip_voice_config with_result with_format with_url read_realtime read_string or_empty
    websocket_url_error read_enabled read_max_calls read_optional_string get as_record
defaults_parsed = refl

trim_test : trim "  +49 30 1  " ≡ "+49 30 1"
unfolding trim trim_start trim_end in_front is_space
trim_test = refl

max_checked : ChecksMax small_env
unfolding get as_record
max_checked value accepted e =
    let same : obj end ≡ accepted = cc (e) in
    subst (λ v. MaxFits (get "maxConcurrentCalls" (as_record v))) same tt

parse_sip_voice_config-IsSound_example : IsSound small_env default_config
parse_sip_voice_config-IsSound_example =
    parse_sip_voice_config-IsSound small_env max_checked undefined default_config defaults_parsed

abbrev ready_env : EntryEnv
ready_env = record {
  config = default_config;
  ensure_runtime = some (fulfilled tt);
  reply = λ c. fulfilled (str "token: abc");
  redact = λ s. s;
  index_text = λ i. "";
}

abbrev hangup_request : Value
hangup_request = obj (field "action" (str "hangup") (field "callId" (str " call_000001 ") end))

hangup_runs :
    (run_sip_voice_action ready_env hangup_request).runtime_call ≡ some (hang_up "call_000001")
unfolding run_sip_voice_action checked_record act_on after_action act required with_runtime perform
    request_call get read_action read_action_value read_action_text required_non_empty_string
    optional_non_empty_string non_empty trim trim_start trim_end in_front is_space
hangup_runs = refl

run_sip_voice_action-Permitted_example : Permitted ready_env hangup_request (hang_up "call_000001")
run_sip_voice_action-Permitted_example =
    run_sip_voice_action-Permitted ready_env hangup_request (hang_up "call_000001") hangup_runs

-- The method for the tail of the records, with parameters that name another action.
tail_runs :
    (gateway_method ready_env tail (obj (field "action" (str "call") end))).runtime_call
    ≡ some (tail_records none)
unfolding gateway_method gateway_request spread_with run_sip_voice_action checked_record act_on
    after_action act required with_runtime perform request_call get read_action read_action_value
    read_action_text read_tail_limit
tail_runs = refl

gateway_method-action_example : (tail ≡ tail) × Unit {0} × (default_config.enabled ≡ true)
gateway_method-action_example =
    gateway_method-action ready_env tail (obj (field "action" (str "call") end)) (tail_records none)
      tail_runs

handlers-IsClean_example :
    IsClean (λ s. s) (tool_execute ready_env hangup_request)
    × IsClean (λ s. s) (gateway_response ready_env tail hangup_request).1
    × IsCleanOption
        (λ s. s)
        (printed (λ s. s) (cli_action ready_env (cli_tail (some "7") none)).outcome)
handlers-IsClean_example =
    handlers-IsClean ready_env tail hangup_request hangup_request (cli_tail (some "7") none)
