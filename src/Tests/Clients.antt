-- ===== src/Tests/Clients.antt =====
-- A client on a transport that is open at once, and the theorems on it.
use openclaw_sip_voice.Base.{◌+◌, ◌≡◌, refl, inl, true, none, some, if◌then◌else◌, ltb}
use openclaw_sip_voice.Protocol.Value.{undefined}
use openclaw_sip_voice.Tests.Inputs.{parses, defaults, no_options}
use openclaw_sip_voice.Client.State.{connecting, disconnected, Raised, a_value}
use openclaw_sip_voice.Client.Steps.{Attached}
use openclaw_sip_voice.Client.State.{
  ClientEnv, made, Client, new_client, connected, emit_state, set_connection_state,
}
use openclaw_sip_voice.Client.Connection.{
  connect, connect_from, opened, disconnect, handle_transport_open, resolved, promised,
  handle_transport_close,
}
use openclaw_sip_voice.Client.Messages.{handle_transport_error}
use openclaw_sip_voice.Client.Orphans.{connect-orphans}
use openclaw_sip_voice.Client.Commands.{Request, request, send_status_get}
use openclaw_sip_voice.Client.Steps.{Reach, connects, requests, opens, here, next}
use openclaw_sip_voice.Client.Promises.{settlements, waits, MayHold, Reach-settlements}
use openclaw_sip_voice.Client.Wire.{IsSound}
use openclaw_sip_voice.Client.Wire.History.{Reach-IsSound}
use openclaw_sip_voice.Client.Revival.{IsAdrift, IsRaised, disconnect-revived}

abbrev plain_env : ClientEnv
plain_env = record {
  date_parses = parses;
  json_parse = λ s. some undefined;
  fallbacks = λ outputs. defaults;
  make_transport = λ outputs. made true true;
  send_data = λ outputs v. none;
  close_transport = λ outputs. record { at_once = true; raised = none };
  listen = λ outputs v. none;
}

abbrev connecting_client : Client
connecting_client = (connect plain_env new_client).1

abbrev open_client : Client
open_client = handle_transport_open connecting_client

abbrev used_client : Client
used_client = (request plain_env (send_status_get no_options) open_client).1

used_client-Reach : Reach plain_env new_client used_client
unfolding connect connect_from opened new_client set_connection_state emit_state
used_client-Reach =
    next (next (next here connects) (opens 0 (inl refl))) (requests (send_status_get no_options))

-- The client is connected, and its `connect` was resolved once.
open_client-connected : open_client.connection_state ≡ connected
unfolding connect connect_from opened new_client set_connection_state handle_transport_open
open_client-connected = refl

Reach-settlements_example :
    (settlements 0 used_client.outputs + waits 0 used_client.pending_connect
      ≡ (if ltb 0 used_client.next_promise then 1 else 0))
    × MayHold used_client.connection_state used_client.transport used_client.detach
Reach-settlements_example = Reach-settlements 0 plain_env used_client used_client-Reach

Reach-IsSound_example : IsSound parses used_client.outputs
Reach-IsSound_example = Reach-IsSound plain_env used_client used_client-Reach

one_queued : connecting_client.microtasks ≡ 1
unfolding connect connect_from opened new_client set_connection_state emit_state
one_queued = refl

disconnect-revived_example :
    let off = (disconnect plain_env 1000 "client disconnect" connecting_client).1 in
    let d = handle_transport_open (record off { microtasks = 0 }) in
    (off.microtasks ≡ 1)
    × IsAdrift d
    × (connect plain_env d ≡ (resolved, d))
    × ((r : Request) → IsRaised (request plain_env r d).0)
disconnect-revived_example =
    disconnect-revived plain_env connecting_client 1000 "client disconnect" 0 one_queued

no_response : Raised
no_response = a_value undefined

still_connecting :
    (connecting_client.connection_state ≡ connecting)
    × Attached 0 connecting_client.attached
    × (plain_env.make_transport (handle_transport_error no_response connecting_client).outputs
        ≡ made true true)
unfolding connect connect_from opened new_client set_connection_state emit_state
still_connecting = (refl, inl refl, refl)

connect-orphans_example :
    let (promise, d) = connect plain_env (handle_transport_error no_response connecting_client) in
    (promise ≡ promised connecting_client.next_promise)
    × (d.transport ≡ some connecting_client.next_transport)
    × Attached 0 d.attached
    × ((handle_transport_close d).connection_state ≡ disconnected)
    × ((handle_transport_close d).transport ≡ none)
connect-orphans_example =
    let (state, listens, makes) = still_connecting in
    connect-orphans plain_env connecting_client 0 no_response true true state listens makes
