-- ===== src/Entry/Handlers.antt =====
-- plugin/index.ts: the handlers of the tool, of the gateway's methods and of the command line, and
-- what they show.
pub mod Shown
use Prim.Native.String.{◌++◌}
use openclaw_sip_voice.Base.{
  ℕ, suc, Bool, true, false, String, List, [], ◌∷◌, Option, none, some, if◌then◌else◌, ◌==◌,
}
use openclaw_sip_voice.Protocol.Value.{
  Value, undefined, bool, num, str, obj, arr, Number, Items, nil, cons, Fields, end, field,
}
use openclaw_sip_voice.Runtime.Snapshot.{sensitive_key_re, set_sanitized}
use openclaw_sip_voice.Config.Text.{join}
use openclaw_sip_voice.Entry.Input.{
  Checked, given, input_error, ◌>>=◌, SipVoiceAction, status, tail, call, speak, hangup,
  parse_cli_limit,
}
use openclaw_sip_voice.Entry.Actions.{
  RuntimeCall, EntryEnv, Outcome, payload, public_error, other_error, Performed,
  run_sip_voice_action,
}

module _ (redact : String → String) where
  -- sanitizePublicPayload, with redactSensitiveText as a parameter; its SENSITIVE_KEY_RE is that of
  -- the runtime.
  unfoldable mutual
    pub sanitize_public_payload : Value → Value
    sanitize_public_payload (str s) = str (redact s)
    sanitize_public_payload (arr vs) = arr (sanitize_public_items vs)
    sanitize_public_payload (obj fs) = obj (sanitize_public_fields fs)
    sanitize_public_payload value = value

    pub sanitize_public_items : Items → Items
    sanitize_public_items nil = nil
    sanitize_public_items (cons v vs) = cons (sanitize_public_payload v) (sanitize_public_items vs)

    pub sanitize_public_fields : Fields → Fields
    sanitize_public_fields end = end
    sanitize_public_fields (field key child fs) =
        set_sanitized key
          (if sensitive_key_re key then str "[redacted]" else sanitize_public_payload child)
          (sanitize_public_fields fs)

  -- errorPayload, by the message of the error and whether it is a SipVoicePublicInputError
  unfoldable pub error_payload : String → Bool → Value
  error_payload message is_public = obj (
      field "error" (str (redact message))
        (field "invalidInput" (if is_public then bool true else undefined) end))

  -- jsonResult, up to the text that JSON.stringify makes of it
  unfoldable pub tool_result : Outcome → Value
  unfolding error_payload
  tool_result (payload v) = sanitize_public_payload v
  tool_result (public_error message) = sanitize_public_payload (error_payload message true)
  tool_result (other_error message) = sanitize_public_payload (error_payload message false)

  -- The arguments of `respond`.
  unfoldable pub response : Outcome → Bool × Value
  unfolding error_payload
  response (payload v) = (true, sanitize_public_payload v)
  response (public_error message) = (false, error_payload message true)
  response (other_error message) = (false, error_payload message false)

abbrev pub action_text : SipVoiceAction → String
action_text status = "status"
action_text tail = "tail"
action_text call = "call"
action_text speak = "speak"
action_text hangup = "hangup"

-- `{ ...fs, [key]: value }`
unfoldable pub spread_with : String → Value → Fields → Fields
spread_with key value end = field key value end
spread_with key value (field k v fs) =
    let rest = spread_with key value fs in if k == key then field k value fs else field k v rest

module _ (env : EntryEnv) where
  -- `{ ...items }`
  unfoldable pub spread_items : ℕ → Items → Fields
  spread_items i nil = end
  spread_items i (cons v vs) = field (env.index_text i) v (spread_items (suc i) vs)

  unfoldable pub gateway_request : SipVoiceAction → Value → Value
  gateway_request action (obj fs) = obj (spread_with "action" (str (action_text action)) fs)
  gateway_request action (arr vs) =
      obj (spread_with "action" (str (action_text action)) (spread_items 0 vs))
  gateway_request action _ = obj (field "action" (str (action_text action)) end)

  -- The handler of a method that registerMethod registers.
  unfoldable pub gateway_method : SipVoiceAction → Value → Performed
  gateway_method action params = run_sip_voice_action env (gateway_request action params)

  unfoldable pub gateway_response : SipVoiceAction → Value → Bool × Value
  gateway_response action params = response env.redact (gateway_method action params).outcome

  -- `execute` of the tool
  unfoldable pub tool_execute : Value → Value
  tool_execute raw_params = tool_result env.redact (run_sip_voice_action env raw_params).outcome

-- A command of the command line, with its arguments and options.
pub data CliCommand : Type 0 where
  cli_root cli_status : CliCommand
  cli_tail : (limit_arg limit_option : Option String) → CliCommand
  cli_call : String → Option (List String) → CliCommand
  cli_speak : String → List String → CliCommand
  cli_hangup : String → CliCommand

abbrev limit_value : Option Number → Value
limit_value none = undefined
limit_value (some n) = num n

abbrev first_of : Option String → Option String → Option String
first_of none other = other
first_of (some s) other = some s

-- messageParts?.join(" ") || undefined
unfoldable pub message_value : Option (List String) → Value
message_value none = undefined
message_value (some parts) = if join " " parts == "" then undefined else str (join " " parts)

-- The request that a command makes, or what parseCliLimit throws.
unfoldable pub cli_request : CliCommand → Checked Value
cli_request cli_root = given undefined
cli_request cli_status = given undefined
cli_request (cli_tail limit_arg limit_option) = do
  limit ← parse_cli_limit (first_of limit_option limit_arg)
  given (obj (field "action" (str "tail") (field "limit" (limit_value limit) end)))
cli_request (cli_call target parts) = given (
    obj (
      field "action" (str "call")
        (field "target" (str target) (field "message" (message_value parts) end))))
cli_request (cli_speak call_id parts) = given (
    obj (
      field "action" (str "speak")
        (field "callId" (str call_id) (field "message" (str (join " " parts)) end))))
cli_request (cli_hangup call_id) =
    given (obj (field "action" (str "hangup") (field "callId" (str call_id) end)))

abbrev pub run_checked : EntryEnv → Checked Value → Performed
run_checked env (given request) = run_sip_voice_action env request
run_checked env (input_error message) = record {
  runtime_call = none;
  outcome = public_error message;
}

-- The action of a command; what it prints is sanitized, and an error rejects its promise.
unfoldable pub cli_action : EntryEnv → CliCommand → Performed
unfolding cli_request
cli_action env command = run_checked env (cli_request command)

-- printJson, of what the action comes to
unfoldable pub printed : (String → String) → Outcome → Option Value
printed redact (payload v) = some (sanitize_public_payload redact v)
printed redact (public_error message) = none
printed redact (other_error message) = none
