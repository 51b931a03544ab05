-- ===== src/Client/Wire/History.antt =====
-- plugin/src/bridge-client.ts: all that a client sends and hands on, after any history.
use openclaw_sip_voice.Base.{ℕ, ◌≡◌, refl, String, ◌∷◌, Option, none, some, if_cases}
use openclaw_sip_voice.Protocol.Value.{Value}
use openclaw_sip_voice.Protocol.Messages.{
  valid, Outcome, returned, threw, validate_bridge_event, validate_plugin_command,
}
use openclaw_sip_voice.Protocol.Parse.{parse_bridge_event}
use openclaw_sip_voice.Client.State.{
  ConnectionState, disconnected, connecting, connected, Failure, Raised, event_emitted,
  transport_closed, Made, made, not_made, ClientEnv, Client, same_state, new_client, emit_state,
  set_connection_state, output,
}
use openclaw_sip_voice.Client.Connection.{
  handle_transport_close, close_found, close_transport, disconnect, opened, connect_from, connect,
}
use openclaw_sip_voice.Client.Messages.{
  closes_connection, apply_bridge_event, message_failed, listened, emit_event, heard,
  handle_transport_message,
}
use openclaw_sip_voice.Client.Commands.{sent, send_on, send_command, request}
use openclaw_sip_voice.Client.Steps.{
  Step, Reach, connects, disconnects, requests, runs_microtask, opens, hears, fails, closes, here,
  next,
}
use openclaw_sip_voice.Client.Wire.{
  IsSound, Sound, finish_disconnected-Sound, handle_transport_open-Sound,
  handle_transport_error-Sound, apply_bridge_event-Sound, built_command, parsed_event,
}

module _ (env : ClientEnv) where
  into : (c : Client) → IsSound env.date_parses c.outputs → Sound env c
  unfolding Sound
  into c v = v

  out : (c : Client) → Sound env c → IsSound env.date_parses c.outputs
  unfolding Sound
  out c v = v

  close_found-Sound :
      (t : Option ℕ) (code : ℕ) (reason : String) (c : Client)
      → Sound env c
      → Sound env (close_found env t code reason c).1
  unfolding close_found handle_transport_close
  close_found-Sound none code reason c v = finish_disconnected-Sound env none c v
  close_found-Sound (some t) code reason c v =
      let c' = record c { outputs = transport_closed t code reason ∷ c.outputs } in
      let v' = into c' (out c v) in
      finish_disconnected-Sound env none _ (
        if_cases (Sound env) (env.close_transport c.outputs).at_once
          (λ _. finish_disconnected-Sound env none c' v') (λ _. v'))

  message_failed-Sound :
      (error : Failure) (c : Client) → Sound env c → Sound env (message_failed env error c)
  unfolding message_failed close_transport emit_state
  message_failed-Sound error c v =
      let c' = emit_state (record c { last_error = some error }) in
      let v' = into c' (out c v) in
      if_cases (Sound env) (closes_connection error)
        (λ _. close_found-Sound c'.transport 1002 "unsupported protocol version" c' v') (λ _. v')

  listened-Sound : (o : Option Raised) (c : Client) → Sound env c → Sound env (listened env o c)
  unfolding listened
  listened-Sound none c v = v
  listened-Sound (some raised) c v = message_failed-Sound _ c v

  heard-Sound :
      (o : Outcome) (c : Client)
      → ((w : Value) → o ≡ returned w → validate_bridge_event env.date_parses w ≡ valid w)
      → Sound env c
      → Sound env (heard env o c)
  unfolding heard emit_event
  heard-Sound (returned event) c h v =
      let c' = apply_bridge_event event c in
      listened-Sound _ _ (
        into (output (event_emitted event) c')
          (h event refl, out c' (apply_bridge_event-Sound env event c v)))
  heard-Sound (threw thrown) c h v = message_failed-Sound _ c v

  opened-Sound : (m : Made) (c : Client) → Sound env c → Sound env (opened env m c).1
  unfolding opened
  opened-Sound (made ready removable) c v = into _ (out c v)
  opened-Sound (not_made raised) c v = finish_disconnected-Sound env _ _ (into _ (out c v))

  connect_from-Sound :
      (st : ConnectionState) (o : Option ℕ) (c : Client)
      → Sound env c
      → Sound env (connect_from env st o c).1
  unfolding connect_from set_connection_state emit_state
  connect_from-Sound connected o c v = v
  connect_from-Sound connecting (some q) c v = v
  connect_from-Sound connecting none c v = opened-Sound _ c v
  connect_from-Sound disconnected o c v = opened-Sound _ _ (
      if_cases (Sound env) (same_state c.connection_state connecting) (λ _. v)
        (λ _. into _ (out c v)))

  sent-Sound :
      (t : ℕ) (command : Value) (o : Option Raised) (c : Client)
      → validate_plugin_command env.date_parses command ≡ valid command
      → Sound env c
      → Sound env (sent env t command o c).1
  unfolding sent
  sent-Sound t command none c h v = into _ (h, out c v)
  sent-Sound t command (some raised) c h v = v

  send_on-Sound :
      (st : ConnectionState) (t : Option ℕ) (command : Value) (c : Client)
      → validate_plugin_command env.date_parses command ≡ valid command
      → Sound env c
      → Sound env (send_on env st t command c).1
  unfolding send_on
  send_on-Sound connected (some t) command c h v = sent-Sound t command _ c h v
  send_on-Sound connected none command c h v = v
  send_on-Sound connecting t command c h v = v
  send_on-Sound disconnected t command c h v = v

  send_command-Sound :
      (o : Outcome) (c : Client)
      → ((w : Value) → o ≡ returned w → validate_plugin_command env.date_parses w ≡ valid w)
      → Sound env c
      → Sound env (send_command env o c).1
  unfolding send_command
  send_command-Sound (returned command) c h v = send_on-Sound _ _ command c (h command refl) v
  send_command-Sound (threw thrown) c h v = v

  Step-Sound : {c d : Client} → Step env c d → Sound env c → Sound env d
  unfolding connect disconnect close_transport request handle_transport_message
      handle_transport_close parse_bridge_event
  Step-Sound {c} connects v = connect_from-Sound _ _ c v
  Step-Sound {c} (disconnects code reason) v = close_found-Sound c.transport code reason c v
  Step-Sound {c} (requests r) v = send_command-Sound _ c (built_command env _ r) v
  Step-Sound {c} (runs_microtask n e) v = handle_transport_open-Sound env _ (into _ (out c v))
  Step-Sound {c} (opens t h) v = handle_transport_open-Sound env c v
  Step-Sound {c} (hears t event h) v = heard-Sound _ c (parsed_event env _) v
  Step-Sound {c} (fails t event h) v = handle_transport_error-Sound env event c v
  Step-Sound {c} (closes t h) v = finish_disconnected-Sound env none c v

  -- Whatever happens, each value that the client has sent on a transport is a command that
  -- validatePluginCommand accepts, and each event that its listeners got is one that
  -- validateBridgeEvent accepts.
  pub Reach-IsSound : (c : Client) → Reach env new_client c → IsSound env.date_parses c.outputs
  unfolding Sound new_client
  Reach-IsSound c here = tt
  Reach-IsSound c (next {d} r st) = out c (Step-Sound st (into d (Reach-IsSound d r)))
