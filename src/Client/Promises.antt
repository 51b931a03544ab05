-- ===== src/Client/Promises.antt =====
-- plugin/src/bridge-client.ts: what holds of the client after any history, and the promises of connect.
pub mod Disconnect
use openclaw_sip_voice.Base.{
  ℕ, ◌+◌, ◌≡◌, refl, String, List, [], ◌∷◌, Option, none, some, arith, if◌then◌else◌, ltb, eqb,
  if_cases,
}
use openclaw_sip_voice.Protocol.Value.{Value}
use openclaw_sip_voice.Protocol.Messages.{Outcome, returned, threw}
use openclaw_sip_voice.Client.State.{
  ConnectionState, disconnected, connecting, connected, Failure, Raised, Output, transport_closed,
  promise_settled, Made, made, not_made, ClientEnv, Listeners, Client, new_client, emit_state,
  set_connection_state,
}
use openclaw_sip_voice.Client.Connection.{
  finish_disconnected, handle_transport_open, handle_transport_close, close_found, close_transport,
  disconnect, opened, connect_from, connect,
}
use openclaw_sip_voice.Client.Messages.{
  closes_connection, apply_bridge_event, message_failed, listened, emit_event, heard,
  handle_transport_message, handle_transport_error,
}
use openclaw_sip_voice.Client.Commands.{sent, send_on, send_command, request}
use openclaw_sip_voice.Client.Steps.{
  Step, Reach, connects, disconnects, requests, runs_microtask, opens, hears, fails, closes, here,
  next,
}

-- How often the promise `p` was settled, and whether it waits.
abbrev pub settlements : ℕ → List Output → ℕ
settlements p [] = 0
settlements p (promise_settled q outcome ∷ outputs) =
    (if eqb q p then 1 else 0) + settlements p outputs
settlements p (_ ∷ outputs) = settlements p outputs

abbrev pub waits : ℕ → Option ℕ → ℕ
waits p none = 0
waits p (some q) = if eqb q p then 1 else 0

-- Only a client that is connecting has a promise that waits.
abbrev pub MayWait : ConnectionState → Option ℕ → Type 0
MayWait connecting promise = Unit
MayWait _ promise = promise ≡ none

-- A client that is disconnected has neither a transport nor listeners on one.
abbrev pub MayHold : ConnectionState → Option ℕ → Option Listeners → Type 0
MayHold disconnected transport detach = (transport ≡ none) × (detach ≡ none)
MayHold _ transport detach = Unit

pub record Inv (p : ℕ) (c : Client) : Type 0 where
  pub linked : c.pending_connect ≡ c.connect_promise
  pub idle : MayWait c.connection_state c.pending_connect
  pub off : MayHold c.connection_state c.transport c.detach
  pub counted :
      settlements p c.outputs + waits p c.pending_connect ≡ (if ltb p c.next_promise then 1 else 0)

module _ (p : ℕ) where
  finish_disconnected-Inv :
      (error : Option Failure) (c : Client) → Inv p c → Inv p (finish_disconnected error c)
  unfolding finish_disconnected
  finish_disconnected-Inv error c v = ground arith

  handle_transport_open-Inv : (c : Client) → Inv p c → Inv p (handle_transport_open c)
  unfolding handle_transport_open
  handle_transport_open-Inv c v = ground arith

  handle_transport_error-Inv :
      (event : Raised) (c : Client) → Inv p c → Inv p (handle_transport_error event c)
  unfolding handle_transport_error
  handle_transport_error-Inv event c v = ground arith

  apply_bridge_event-Inv :
      (event : Value) (c : Client) → Inv p c → Inv p (apply_bridge_event event c)
  unfolding apply_bridge_event
  apply_bridge_event-Inv event c v = ground arith

  begin_connecting :
      (c : Client)
      → c.connection_state ≡ disconnected
      → Inv p c
      → let c' = set_connection_state connecting c in
        (c'.connection_state ≡ connecting) × (c'.connect_promise ≡ none) × Inv p c'
  unfolding set_connection_state
  begin_connecting c e v = ground arith

  module _ (env : ClientEnv) where
    close_found-Inv :
        (t : Option ℕ) (code : ℕ) (reason : String) (c : Client)
        → Inv p c
        → Inv p (close_found env t code reason c).1
    unfolding close_found handle_transport_close
    close_found-Inv none code reason c v = finish_disconnected-Inv none c v
    close_found-Inv (some t) code reason c v =
        let c' = record c { outputs = transport_closed t code reason ∷ c.outputs } in
        let v' : Inv p c' = record {
          linked = v.linked;
          idle = v.idle;
          off = v.off;
          counted = v.counted;
        } in
        finish_disconnected-Inv none _ (
          if_cases (Inv p) (env.close_transport c.outputs).at_once
            (λ _. finish_disconnected-Inv none c' v') (λ _. v'))

    close_transport-Inv :
        (code : ℕ) (reason : String) (c : Client)
        → Inv p c
        → Inv p (close_transport env code reason c).1
    unfolding close_transport
    close_transport-Inv code reason c v = close_found-Inv c.transport code reason c v

    emitted-Inv :
        (o : Option Failure) (c : Client)
        → Inv p c
        → Inv p (emit_state (record c { last_error = o }))
    unfolding emit_state
    emitted-Inv o c v = record {
      linked = v.linked;
      idle = v.idle;
      off = v.off;
      counted = v.counted;
    }

    message_failed-Inv :
        (error : Failure) (c : Client) → Inv p c → Inv p (message_failed env error c)
    unfolding message_failed
    message_failed-Inv error c v =
        let v' = emitted-Inv (some error) c v in
        if_cases (Inv p) (closes_connection error)
          (λ _. close_transport-Inv 1002 "unsupported protocol version" _ v') (λ _. v')

    listened-Inv : (o : Option Raised) (c : Client) → Inv p c → Inv p (listened env o c)
    unfolding listened
    listened-Inv none c v = v
    listened-Inv (some raised) c v = message_failed-Inv _ c v

    heard-Inv : (o : Outcome) (c : Client) → Inv p c → Inv p (heard env o c)
    unfolding heard emit_event
    heard-Inv (returned event) c v =
        let w = apply_bridge_event-Inv event c v in
        listened-Inv _ _
          (record { linked = w.linked; idle = w.idle; off = w.off; counted = w.counted })
    heard-Inv (threw thrown) c v = message_failed-Inv _ c v

    opened-Inv :
        (m : Made) (c : Client)
        → c.connection_state ≡ connecting
        → c.connect_promise ≡ none
        → Inv p c
        → Inv p (opened env m c).1
    unfolding opened
    opened-Inv (made ready removable) c e h v = ground arith
    opened-Inv (not_made raised) c e h v =
        finish_disconnected-Inv _ _
          (record { linked = v.linked; idle = v.idle; off = v.off; counted = v.counted })

    connect_from-Inv :
        (st : ConnectionState) (o : Option ℕ) (c : Client)
        → c.connection_state ≡ st
        → c.connect_promise ≡ o
        → Inv p c
        → Inv p (connect_from env st o c).1
    unfolding connect_from
    connect_from-Inv connected o c e h v = v
    connect_from-Inv connecting (some q) c e h v = v
    connect_from-Inv connecting none c e h v = opened-Inv _ c e h v
    connect_from-Inv disconnected o c e h v =
        let (begun, free, kept) = begin_connecting c e v in opened-Inv _ _ begun free kept

    sent-Inv :
        (t : ℕ) (command : Value) (o : Option Raised) (c : Client)
        → Inv p c
        → Inv p (sent env t command o c).1
    unfolding sent
    sent-Inv t command none c v = record {
      linked = v.linked;
      idle = v.idle;
      off = v.off;
      counted = v.counted;
    }
    sent-Inv t command (some raised) c v = v

    send_on-Inv :
        (st : ConnectionState) (t : Option ℕ) (command : Value) (c : Client)
        → Inv p c
        → Inv p (send_on env st t command c).1
    unfolding send_on
    send_on-Inv connected (some t) command c v = sent-Inv t command _ c v
    send_on-Inv connected none command c v = v
    send_on-Inv connecting t command c v = v
    send_on-Inv disconnected t command c v = v

    send_command-Inv : (o : Outcome) (c : Client) → Inv p c → Inv p (send_command env o c).1
    unfolding send_command
    send_command-Inv (returned command) c v = send_on-Inv _ _ command c v
    send_command-Inv (threw thrown) c v = v

    Step-Inv : {c d : Client} → Step env c d → Inv p c → Inv p d
    unfolding connect disconnect request handle_transport_message handle_transport_close
    Step-Inv {c} connects v = connect_from-Inv _ _ c refl refl v
    Step-Inv {c} (disconnects code reason) v = close_transport-Inv code reason c v
    Step-Inv {c} (requests r) v = send_command-Inv _ c v
    Step-Inv {c} (runs_microtask n e) v =
        handle_transport_open-Inv _
          (record { linked = v.linked; idle = v.idle; off = v.off; counted = v.counted })
    Step-Inv {c} (opens t h) v = handle_transport_open-Inv c v
    Step-Inv {c} (hears t event h) v = heard-Inv _ c v
    Step-Inv {c} (fails t event h) v = handle_transport_error-Inv event c v
    Step-Inv {c} (closes t h) v = finish_disconnected-Inv none c v

    Reach-Inv : {c d : Client} → Inv p c → Reach env c d → Inv p d
    Reach-Inv v here = v
    Reach-Inv v (next r st) = Step-Inv st (Reach-Inv v r)

    new_client-Inv : Inv p new_client
    unfolding new_client
    new_client-Inv = record {
      linked = refl;
      idle = refl;
      off = (refl, refl);
      counted = ground arith;
    }

    -- After any history every promise that `connect` made was settled exactly once or is the one that
    -- waits, and not both; no other was settled. A client that is disconnected holds no transport.
    pub Reach-settlements :
        (c : Client)
        → Reach env new_client c
        → (settlements p c.outputs + waits p c.pending_connect
            ≡ (if ltb p c.next_promise then 1 else 0))
          × MayHold c.connection_state c.transport c.detach
    Reach-settlements c r = let v = Reach-Inv new_client-Inv r in (v.counted, v.off)
