-- ===== src/Client/Orphans.antt =====
-- plugin/src/bridge-client.ts: a `connect` that is tried again after an error of the transport.
use openclaw_sip_voice.Base.{
  ℕ, subst, ◌≡◌, refl, ◌∙◌, ap, sym, inr, Option, none, some, ◌∷◌, arith, Bool,
}
use openclaw_sip_voice.Client.State.{
  connecting, disconnected, ConnectionState, Raised, Made, made, ClientEnv, Client,
}
use openclaw_sip_voice.Client.Connection.{
  promised, opened, connect_from, connect, handle_transport_close,
}
use openclaw_sip_voice.Client.Messages.{handle_transport_error}
use openclaw_sip_voice.Client.Promises.Disconnect.{finish_disconnected-IsOff}
use openclaw_sip_voice.Client.Steps.{Attached}

-- An error leaves a client that is connecting as it is, without the promise.
abbrev Failed : Client → Client → Type 0
Failed c d =
    (d.connection_state ≡ connecting)
    × (d.connect_promise ≡ none)
    × (d.attached ≡ c.attached)
    × (d.next_transport ≡ c.next_transport)
    × (d.next_promise ≡ c.next_promise)

handle_transport_error-Failed :
    (event : Raised) (c : Client)
    → c.connection_state ≡ connecting
    → Failed c (handle_transport_error event c)
unfolding handle_transport_error
handle_transport_error-Failed event c e = ground arith

module _ (env : ClientEnv) where
  opened_lem :
      (m : Made) (c : Client) (ready removable : Bool)
      → m ≡ made ready removable
      → let d = opened env m c in
        (d.0 ≡ promised c.next_promise)
        × (d.1.transport ≡ some c.next_transport)
        × (d.1.attached ≡ c.next_transport ∷ c.attached)
  unfolding opened
  opened_lem m c ready removable e = rw e (refl, refl, refl)

  connect_from_lem :
      (st : ConnectionState) (o : Option ℕ) (c : Client)
      → st ≡ connecting
      → o ≡ none
      → connect_from env st o c ≡ opened env (env.make_transport c.outputs) c
  unfolding connect_from
  connect_from_lem st o c e f = rw (e, f) refl

  -- An error of the transport while the client is connecting does not detach the client from it. A
  -- `connect` after that makes another transport, if it can, with a promise of its own, and the first
  -- one can still reach the client: its `close` event disconnects the client and drops the new
  -- transport.
  pub connect-orphans :
      (c : Client) (t : ℕ) (event : Raised) (ready removable : Bool)
      → c.connection_state ≡ connecting
      → Attached t c.attached
      → env.make_transport (handle_transport_error event c).outputs ≡ made ready removable
      → let (promise, d) = connect env (handle_transport_error event c) in
        (promise ≡ promised c.next_promise)
        × (d.transport ≡ some c.next_transport)
        × Attached t d.attached
        × ((handle_transport_close d).connection_state ≡ disconnected)
        × ((handle_transport_close d).transport ≡ none)
  unfolding connect handle_transport_close
  connect-orphans c t event ready removable e h m =
      let f = handle_transport_error event c in
      let (state, free, listeners, number, promise) = handle_transport_error-Failed event c e in
      let from = connect_from_lem f.connection_state f.connect_promise f state free in
      let (made_promise, made_transport, made_attached) = opened_lem _ f ready removable m in
      let (off, gone, _, _, _, _) =
        finish_disconnected-IsOff none
          (connect_from env f.connection_state f.connect_promise f).1 in
      (
        ap (λ r. r.0) from ∙ made_promise ∙ ap promised promise,
        ap (λ r. r.1.transport) from ∙ made_transport ∙ ap some number,
        subst (Attached t) (sym (ap (λ r. r.1.attached) from ∙ made_attached))
            (inr (subst (Attached t) (sym listeners) h)),
        off,
        gone,
      )
