-- ===== src/Entry/Actions.antt =====
-- plugin/index.ts: runSipVoiceAction. The runtime is a parameter.
pub mod Requests
pub mod Asked
use openclaw_sip_voice.Base.{
  ℕ, Bool, true, false, not, String, List, [], ◌∷◌, Option, none, some, if◌then◌else◌,
}
use openclaw_sip_voice.Protocol.Value.{
  Value, undefined, bool, num, str, obj, nat, Number, Fields, end, field, get,
}
use openclaw_sip_voice.Config.{SipVoiceConfig, ConfigSummary, summarize_sip_voice_config}
use openclaw_sip_voice.Entry.Input.{
  Checked, given, input_error, ◌>>=◌, SipVoiceAction, status, tail, call, speak, hangup,
  RemotePartyInput, as_record, optional_non_empty_string, required_non_empty_string, read_action,
  read_tail_limit, read_remote_party,
}

-- A method call on the runtime.
pub data RuntimeCall : Type 0 where
  get_status : RuntimeCall
  tail_records : Option Number → RuntimeCall
  place_call : RemotePartyInput → Option String → RuntimeCall
  speak_text : (call_id message : String) → RuntimeCall
  hang_up : (call_id : String) → RuntimeCall

-- A promise is fulfilled, or rejected with an error of this message, which is no
-- SipVoicePublicInputError.
pub data Reply {ℓ} (A : Type ℓ) : Type ℓ where
  fulfilled : A → Reply A
  rejected : String → Reply A

-- `ensure_runtime` is `none` if the action runs without it; `reply` is what the runtime answers;
-- `index_text` is `String(i)`.
pub record EntryEnv : Type 0 where
  pub config : SipVoiceConfig
  pub ensure_runtime : Option (Reply (Unit {0}))
  pub reply : RuntimeCall → Reply Value
  pub redact : String → String
  pub index_text : ℕ → String

pub data Outcome : Type 0 where
  payload : Value → Outcome
  public_error : String → Outcome
  other_error : String → Outcome

-- What an action comes to, with the call on the runtime, if it makes one.
pub record Performed : Type 0 where
  pub runtime_call : Option RuntimeCall
  pub outcome : Outcome

abbrev ended : Outcome → Performed
ended outcome = record { runtime_call = none; outcome = outcome }

abbrev text_or_undefined : Option String → Value
text_or_undefined none = undefined
text_or_undefined (some s) = str s

abbrev summary_value : ConfigSummary → Value
summary_value c = obj (
    field "enabled" (bool c.enabled) (
      field "bridge" (obj (field "url" (str c.bridge_url) end)) (
        field "maxConcurrentCalls" (num c.max_concurrent_calls) (
          field "audio" (obj (field "format" (str c.audio_format) end)) (
            field "realtime"
              (obj (
                field "provider" (str c.provider) (
                  field "model" (str c.model) (
                    field "toolPolicy" (str c.tool_policy) (
                      field "instructions" (text_or_undefined c.instructions) (
                        field "introMessage" (text_or_undefined c.intro_message) (
                          field "providerConfigCount" (num (nat c.provider_config_count)) end)))))))
              end)))))

unfoldable pub lightweight_status : SipVoiceConfig → Bool → Value
lightweight_status config available = obj (
    field "enabled" (bool config.enabled) (
      field "config" (summary_value (summarize_sip_voice_config config))
        (field "runtimeAvailable" (bool available) end)))

-- The arguments of the method of the runtime, from the request.
unfoldable pub request_call : SipVoiceAction → Fields → Checked RuntimeCall
request_call status request = given get_status
request_call tail request = do
  limit ← read_tail_limit (get "limit" request)
  given (tail_records limit)
request_call call request = do
  remote ← read_remote_party request
  message ← optional_non_empty_string (get "message" request) "message"
  given (place_call remote message)
request_call speak request = do
  call_id ← required_non_empty_string (get "callId" request) "callId"
  message ← required_non_empty_string (get "message" request) "message"
  given (speak_text call_id message)
request_call hangup request = do
  call_id ← required_non_empty_string (get "callId" request) "callId"
  given (hang_up call_id)

abbrev outcome_of : Reply Value → Outcome
outcome_of (fulfilled v) = payload v
outcome_of (rejected message) = other_error message

abbrev is_given : Option (Reply (Unit {0})) → Bool
is_given none = false
is_given (some reply) = true

module _ (env : EntryEnv) where
  unfoldable pub perform : Checked RuntimeCall → Performed
  perform (given c) = record { runtime_call = some c; outcome = outcome_of (env.reply c) }
  perform (input_error message) = ended (public_error message)

  -- After requireRuntime found that the plugin is enabled.
  unfoldable pub with_runtime : Option (Reply (Unit {0})) → SipVoiceAction → Fields → Performed
  unfolding perform request_call
  with_runtime none action request =
      ended (public_error "sip-voice runtime is unavailable in this registration mode")
  with_runtime (some (rejected message)) action request = ended (other_error message)
  with_runtime (some (fulfilled ready)) action request = perform (request_call action request)

  unfoldable pub required : SipVoiceAction → Fields → Performed
  unfolding with_runtime
  required action request =
      if env.config.enabled
      then with_runtime env.ensure_runtime action request
      else ended (public_error "sip-voice is disabled in plugin config")

  -- `status` of an enabled plugin.
  unfoldable pub status_found : Option (Reply (Unit {0})) → Fields → Performed
  unfolding required lightweight_status
  status_found none request = ended (payload (lightweight_status env.config false))
  status_found (some reply) request = required status request

  unfoldable pub act : SipVoiceAction → Fields → Performed
  unfolding status_found required lightweight_status
  act status request =
      if env.config.enabled
      then status_found env.ensure_runtime request
      else ended (payload (lightweight_status env.config (is_given env.ensure_runtime)))
  act action request = required action request

  unfoldable pub after_action : Checked SipVoiceAction → Fields → Performed
  unfolding act
  after_action (input_error message) request = ended (public_error message)
  after_action (given action) request = act action request

  unfoldable pub act_on : Checked Fields → Performed
  unfolding after_action
  act_on (input_error message) = ended (public_error message)
  act_on (given request) = after_action (read_action request) request

  -- runSipVoiceAction
  unfoldable pub run_sip_voice_action : Value → Performed
  unfolding act_on
  run_sip_voice_action undefined = act_on (given end)
  run_sip_voice_action request = act_on (as_record request)
