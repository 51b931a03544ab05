-- ===== src/Client/Revival.antt =====
-- plugin/src/bridge-client.ts: a queued call of handleTransportOpen that runs after a disconnection.
use openclaw_sip_voice.Base.{
  ℕ, suc, ◌≡◌, refl, ◌∙◌, String, ◌∷◌, Option, none, some, arith, if_cases,
}
use openclaw_sip_voice.Protocol.Messages.{Outcome, returned, threw}
use openclaw_sip_voice.Client.State.{connected, Failure, transport_closed, ClientEnv, Client}
use openclaw_sip_voice.Client.Connection.{
  resolved, finish_disconnected, handle_transport_open, handle_transport_close, close_found,
  close_transport, disconnect, connect_from, connect,
}
use openclaw_sip_voice.Client.Commands.{
  Request, Sending, returns, raises, send_on, send_command, request,
}
use openclaw_sip_voice.Client.Promises.Disconnect.{disconnect-IsOff}

-- A client that counts as connected and has no transport.
abbrev pub IsAdrift : Client → Type 0
IsAdrift c = (c.connection_state ≡ connected) × (c.transport ≡ none)

abbrev pub IsRaised : Sending → Type 0
IsRaised (raises raised) = Unit
IsRaised (returns command) = ⊥

handle_transport_open-IsAdrift :
    (c : Client) → c.transport ≡ none → IsAdrift (handle_transport_open c)
unfolding handle_transport_open
handle_transport_open-IsAdrift c h = ground arith

finish_disconnected-microtasks :
    (error : Option Failure) (c : Client) → (finish_disconnected error c).microtasks ≡ c.microtasks
unfolding finish_disconnected
finish_disconnected-microtasks error c = ground arith

module _ (env : ClientEnv) where
  close_found-microtasks :
      (t : Option ℕ) (code : ℕ) (reason : String) (c : Client)
      → (close_found env t code reason c).1.microtasks ≡ c.microtasks
  unfolding close_found handle_transport_close
  close_found-microtasks none code reason c = finish_disconnected-microtasks none c
  close_found-microtasks (some t) code reason c =
      let c' = record c { outputs = transport_closed t code reason ∷ c.outputs } in
      if_cases (λ (d : Client). (finish_disconnected none d).microtasks ≡ c.microtasks)
        (env.close_transport c.outputs).at_once
        (λ _.
          finish_disconnected-microtasks none (finish_disconnected none c')
          ∙ finish_disconnected-microtasks none c')
        (λ _. finish_disconnected-microtasks none c')

  disconnect-microtasks :
      (code : ℕ) (reason : String) (c : Client)
      → (disconnect env code reason c).1.microtasks ≡ c.microtasks
  unfolding disconnect close_transport
  disconnect-microtasks code reason c = close_found-microtasks c.transport code reason c

  send_command-raises : (o : Outcome) (c : Client) → IsAdrift c → IsRaised (send_command env o c).0
  unfolding send_command send_on
  send_command-raises (returned command) c (e, h) = rw (e, h) tt
  send_command-raises (threw thrown) c h = tt

  request-raises : (r : Request) (c : Client) → IsAdrift c → IsRaised (request env r c).0
  unfolding request
  request-raises r c h = send_command-raises _ c h

  connect-resolved : (c : Client) → IsAdrift c → connect env c ≡ (resolved, c)
  unfolding connect connect_from
  connect-resolved c (e, h) = rw (e) refl

  -- If a call of handleTransportOpen is queued, `disconnect` does not withdraw it. When it runs after
  -- that, the client counts as connected without a transport: then `connect` returns a promise that is
  -- resolved and does nothing, and each method that sends a command raises an error.
  pub disconnect-revived :
      (c : Client) (code : ℕ) (reason : String) (n : ℕ)
      → c.microtasks ≡ suc n
      → let off = (disconnect env code reason c).1 in
        let d = handle_transport_open (record off { microtasks = n }) in
        (off.microtasks ≡ suc n)
        × IsAdrift d
        × (connect env d ≡ (resolved, d))
        × ((r : Request) → IsRaised (request env r d).0)
  disconnect-revived c code reason n queued =
      let (_, idle, _, _, _, _) = disconnect-IsOff env code reason c in
      let off = record (disconnect env code reason c).1 { microtasks = n } in
      let adrift = handle_transport_open-IsAdrift off idle in
      (
        disconnect-microtasks code reason c ∙ queued,
        adrift,
        connect-resolved _ adrift,
        λ r. request-raises r _ adrift,
      )
