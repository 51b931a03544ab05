-- ===== src/Client/Steps.antt =====
-- plugin/src/bridge-client.ts: the histories of a client, as sequences of steps.
use openclaw_sip_voice.Base.{ℕ, suc, ◌≡◌, String, List, ◌∷◌, [], ◌⊎◌}
use openclaw_sip_voice.Protocol.Value.{Value}
use openclaw_sip_voice.Client.State.{Raised, ClientEnv, Client}
use openclaw_sip_voice.Client.Connection.{
  connect, disconnect, handle_transport_open, handle_transport_close,
}
use openclaw_sip_voice.Client.Messages.{handle_transport_message, handle_transport_error}
use openclaw_sip_voice.Client.Commands.{Request, request}

-- The transport is one whose events reach the client.
abbrev pub Attached : ℕ → List ℕ → Type 0
Attached t [] = ⊥
Attached t (u ∷ us) = (t ≡ u) ⊎ Attached t us

module _ (env : ClientEnv) where
  -- What can happen next, in any order: the methods, a queued call of handleTransportOpen, and the
  -- events of a transport that has the client's listeners.
  pub data Step (c : Client) : Client → Type 0 where
    connects : Step c (connect env c).1
    disconnects : (code : ℕ) (reason : String) → Step c (disconnect env code reason c).1
    requests : (r : Request) → Step c (request env r c).1
    runs_microtask :
        (n : ℕ)
        → c.microtasks ≡ suc n
        → Step c (handle_transport_open (record c { microtasks = n }))
    opens : (t : ℕ) → Attached t c.attached → Step c (handle_transport_open c)
    hears :
        (t : ℕ) (event : Value)
        → Attached t c.attached
        → Step c (handle_transport_message env event c)
    fails :
        (t : ℕ) (event : Raised) → Attached t c.attached → Step c (handle_transport_error event c)
    closes : (t : ℕ) → Attached t c.attached → Step c (handle_transport_close c)

  pub data Reach (c : Client) : Client → Type 0 where
    here : Reach c c
    next : {d e : Client} → Reach c d → Step d e → Reach c e
