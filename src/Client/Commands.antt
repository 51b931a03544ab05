-- ===== src/Client/Commands.antt =====
-- plugin/src/bridge-client.ts: the methods that send commands.
use openclaw_sip_voice.Base.{ℕ, String, Option, none, some}
use openclaw_sip_voice.Protocol.Value.{Value, Number}
use openclaw_sip_voice.Protocol.Messages.{Outcome, returned, threw}
use openclaw_sip_voice.Protocol.Builders.{
  CommandOptions, Fallbacks, Payload, RemoteParty, build_status_get, build_call_answer,
  build_call_dial, build_audio_out, build_audio_clear, build_call_hangup,
}
use openclaw_sip_voice.Client.State.{
  ConnectionState, connected, failure, Raised, an_error, command_sent, ClientEnv, Client, output,
}
use openclaw_sip_voice.Client.Messages.{failure_of}

-- A call of one of the methods, with its options.
pub data Request : Type 0 where
  send_status_get : CommandOptions → Request
  send_call_answer : CommandOptions → String → Request
  send_call_dial : CommandOptions → RemoteParty → Option Value → Request
  send_audio_out : CommandOptions → String → Number → Option Value → Option Payload → Request
  send_audio_clear : CommandOptions → String → Option String → Request
  send_call_hangup : CommandOptions → String → Option String → Request

-- The command that the method returns, or what it throws.
pub data Sending : Type 0 where
  returns : Value → Sending
  raises : Raised → Sending

module _ (env : ClientEnv) where
  -- The command of a request; `fallbacks` are those of withCommandOptions.
  unfoldable pub build : Fallbacks → Request → Outcome
  build fallbacks (send_status_get options) = build_status_get env.date_parses fallbacks options
  build fallbacks (send_call_answer options id) =
      build_call_answer env.date_parses fallbacks options id
  build fallbacks (send_call_dial options remote audio) =
      build_call_dial env.date_parses fallbacks options remote audio
  build fallbacks (send_audio_out options id sequence audio payload) =
      build_audio_out env.date_parses fallbacks options id sequence audio payload
  build fallbacks (send_audio_clear options id reason) =
      build_audio_clear env.date_parses fallbacks options id reason
  build fallbacks (send_call_hangup options id reason) =
      build_call_hangup env.date_parses fallbacks options id reason

  -- The rest of sendCommand after `send` of the transport.
  unfoldable pub sent : ℕ → Value → Option Raised → Client → Sending × Client
  sent transport command none c = (returns command, output (command_sent transport command) c)
  sent transport command (some raised) c = (raises raised, c)

  unfoldable pub send_on : ConnectionState → Option ℕ → Value → Client → Sending × Client
  unfolding sent
  send_on connected (some transport) command c =
      sent transport command (env.send_data c.outputs command) c
  send_on _ _ command c =
      (raises (an_error (failure "Error" "SIP voice bridge is not connected")), c)

  -- sendCommand, of what the builder returned or threw
  unfoldable pub send_command : Outcome → Client → Sending × Client
  unfolding send_on
  send_command (returned command) c = send_on c.connection_state c.transport command c
  send_command (threw thrown) c = (raises (an_error (failure_of thrown)), c)

  -- One of sendStatusGet, sendCallAnswer, sendCallDial, sendAudioOut, sendAudioClear, sendCallHangup.
  unfoldable pub request : Request → Client → Sending × Client
  unfolding build send_command
  request r c = send_command (build (env.fallbacks c.outputs) r) c
