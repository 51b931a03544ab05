-- ===== src/Client/Promises/Disconnect.antt =====
-- plugin/src/bridge-client.ts: disconnect leaves no promise of connect unsettled.
use openclaw_sip_voice.Base.{
  subst, ℕ, ◌≡◌, Bool, false, ◌&&◌, ◌||◌, String, List, [], ◌∷◌, Option, none, some, arith, eqb,
  if_cases,
}
use openclaw_sip_voice.Client.State.{
  disconnected, Failure, transport_closed, ClientEnv, Listeners, Client,
}
use openclaw_sip_voice.Client.Connection.{
  finish_disconnected, handle_transport_close, close_found, close_transport, disconnect,
}

-- The client is disconnected and idle, and made `n` promises so far.
abbrev pub IsOff : ℕ → Client → Type 0
IsOff n c =
    (c.connection_state ≡ disconnected)
    × (c.transport ≡ none)
    × (c.detach ≡ none)
    × (c.pending_connect ≡ none)
    × (c.connect_promise ≡ none)
    × (c.next_promise ≡ n)

pub finish_disconnected-IsOff :
    (error : Option Failure) (c : Client) → IsOff c.next_promise (finish_disconnected error c)
unfolding finish_disconnected
finish_disconnected-IsOff error c = ground arith

close_found-IsOff :
    (env : ClientEnv) (t : Option ℕ) (code : ℕ) (reason : String) (c : Client)
    → IsOff c.next_promise (close_found env t code reason c).1
unfolding close_found handle_transport_close
close_found-IsOff env none code reason c = finish_disconnected-IsOff none c
close_found-IsOff env (some t) code reason c =
    let c' = record c { outputs = transport_closed t code reason ∷ c.outputs } in
    let (_, _, _, _, _, same) = finish_disconnected-IsOff none c' in
    if_cases (λ d. IsOff c.next_promise (finish_disconnected none d))
      (env.close_transport c.outputs).at_once
      (λ _.
        subst (λ n. IsOff n (finish_disconnected none (finish_disconnected none c'))) same
          (finish_disconnected-IsOff none (finish_disconnected none c')))
      (λ _. finish_disconnected-IsOff none c')

pub disconnect-IsOff :
    (env : ClientEnv) (code : ℕ) (reason : String) (c : Client)
    → IsOff c.next_promise (disconnect env code reason c).1
unfolding disconnect close_transport
disconnect-IsOff env code reason c = close_found-IsOff env c.transport code reason c

-- Whether events of the transport reach the client.
abbrev pub is_attached : ℕ → List ℕ → Bool
is_attached t [] = false
is_attached t (u ∷ us) = eqb u t || is_attached t us

-- Of listeners that can be removed, the client has none left on their transport.
abbrev pub AreRemoved : Option Listeners → Client → Type 0
AreRemoved none d = Unit
AreRemoved (some l) d = l.removable && is_attached l.transport d.attached ≡ false
