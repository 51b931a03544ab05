-- ===== src/Client/Connection.antt =====
-- plugin/src/bridge-client.ts: connect, disconnect and what leads to a disconnection.
use openclaw_sip_voice.Base.{ℕ, suc, String, List, [], ◌∷◌, Option, none, some, if◌then◌else◌, eqb}
use openclaw_sip_voice.Client.State.{
  ConnectionState, disconnected, connecting, connected, Failure, failure, Raised, transport_closed,
  promise_settled, Made, made, not_made, Closing, ClientEnv, Listeners, Client, to_error, output,
  set_connection_state,
}

-- What connect() returns: a promise that is settled already, or the promise of this number.
pub data Promise : Type 0 where
  resolved : Promise
  rejected : Failure → Promise
  promised : ℕ → Promise

unfoldable pub without : ℕ → List ℕ → List ℕ
without n [] = []
without n (m ∷ ms) = if eqb m n then without n ms else m ∷ without n ms

-- this.detachTransportListeners?.()
unfoldable pub detach_listeners : Option Listeners → Client → Client
detach_listeners none c = c
detach_listeners (some l) c =
    if l.removable then record c { attached = without l.transport c.attached } else c

-- The call of `resolve` or `reject` of a pending connect, if there is one.
unfoldable pub settle : Option ℕ → Option Failure → Client → Client
settle none outcome c = c
settle (some p) outcome c = output (promise_settled p outcome) c

-- resolvePendingConnect, for the outcome `none`, and rejectPendingConnect
unfoldable pub settle_pending_connect : Option Failure → Client → Client
unfolding settle
settle_pending_connect outcome c = record (settle c.pending_connect outcome c) {
  pending_connect = none;
  connect_promise = none;
}

abbrev pub or_else_failure : Option Failure → Failure → Failure
or_else_failure none f = f
or_else_failure (some e) f = e

abbrev pub some_or : Option Failure → Option Failure → Option Failure
some_or none kept = kept
some_or (some e) kept = some e

-- finishDisconnected
unfoldable pub finish_disconnected : Option Failure → Client → Client
unfolding detach_listeners settle_pending_connect set_connection_state
finish_disconnected error c =
    let detached = record (detach_listeners c.detach c) {
      detach = none;
      transport = none;
      last_error = some_or error (detach_listeners c.detach c).last_error;
    } in
    let settled =
      settle_pending_connect
        (some (or_else_failure error (failure "Error" "SIP voice bridge disconnected"))) detached in
    set_connection_state disconnected (record settled { connect_promise = none })

-- handleTransportOpen
unfoldable pub handle_transport_open : Client → Client
unfolding settle_pending_connect set_connection_state
handle_transport_open c =
    set_connection_state connected (record (settle_pending_connect none c) { last_error = none })

-- handleTransportClose
unfoldable pub handle_transport_close : Client → Client
unfolding finish_disconnected
handle_transport_close c = finish_disconnected none c

-- The end of closeTransport, after `close` of the transport.
unfoldable pub closed : Closing → Client → Option Raised × Client
closed answer c = (
  answer.raised,
  finish_disconnected none (if answer.at_once then handle_transport_close c else c),
)

module _ (env : ClientEnv) where
  unfoldable pub close_found : Option ℕ → ℕ → String → Client → Option Raised × Client
  unfolding closed
  close_found none code reason c = (none, finish_disconnected none c)
  close_found (some t) code reason c =
      closed (env.close_transport c.outputs) (output (transport_closed t code reason) c)

  -- closeTransport, with what it throws
  unfoldable pub close_transport : ℕ → String → Client → Option Raised × Client
  unfolding close_found
  close_transport code reason c = close_found c.transport code reason c

  -- disconnect
  unfoldable pub disconnect : ℕ → String → Client → Option Raised × Client
  disconnect code reason c = close_transport code reason c

  -- The rest of `connect` after the call of transportFactory.
  unfoldable pub opened : Made → Client → Promise × Client
  opened (made ready removable) c = (
    promised c.next_promise,
    record c {
      transport = some c.next_transport;
      detach = some (record { transport = c.next_transport; removable = removable });
      attached = c.next_transport ∷ c.attached;
      next_transport = suc c.next_transport;
      pending_connect = some c.next_promise;
      connect_promise = some c.next_promise;
      next_promise = suc c.next_promise;
      microtasks = if ready then suc c.microtasks else c.microtasks;
    },
  )
  opened (not_made raised) c =
      let error = to_error raised "Failed to create SIP voice bridge transport" in
      (rejected error, finish_disconnected (some error) (record c { last_error = some error }))

  unfoldable pub connect_from : ConnectionState → Option ℕ → Client → Promise × Client
  unfolding opened set_connection_state
  connect_from connected promise c = (resolved, c)
  connect_from connecting (some p) c = (promised p, c)
  connect_from connecting none c = opened (env.make_transport c.outputs) c
  connect_from disconnected promise c =
      let c' = set_connection_state connecting c in opened (env.make_transport c'.outputs) c'

  -- connect
  unfoldable pub connect : Client → Promise × Client
  unfolding connect_from
  connect c = connect_from c.connection_state c.connect_promise c
