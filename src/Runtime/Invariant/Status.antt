-- ===== src/Runtime/Invariant/Status.antt =====
-- plugin/src/runtime.ts, getStatus: what it says of the calls.
use openclaw_sip_voice.Base.{ℕ, ◌+◌, ◌≤◌, ◌≡◌, refl, String, List, [], ◌∷◌, arith, length, All, map}
use openclaw_sip_voice.Runtime.State.{Env, State, ManagedCall, BridgeState}
use openclaw_sip_voice.Runtime.Calls.{active_count, reserved_call_count}
use openclaw_sip_voice.Runtime.Start.{
  CallStatus, call_status_from_record, status_calls, get_status, initial, Reach,
}
use openclaw_sip_voice.Runtime.Snapshot.Clean.{IsCleanOption, sanitize_optional-IsCleanOption}
use openclaw_sip_voice.Runtime.Api.{update_bridge_state}
use openclaw_sip_voice.Runtime.Invariant.Entries.{IsOpen}
use openclaw_sip_voice.Runtime.Invariant.History.{Reach-initial, Reach-reserved_call_count-le}

status_calls_open :
    (objects : ℕ → ManagedCall) (fresh : ℕ) (calls : List (String × ℕ))
    → All (IsOpen objects fresh) calls
    → (map (λ (c : CallStatus). c.call_id) (status_calls objects calls) ≡ map (λ e. e.0) calls)
      × (length (status_calls objects calls) ≡ active_count objects calls)
unfolding status_calls call_status_from_record active_count
status_calls_open objects fresh [] h = (refl, refl)
status_calls_open objects fresh ((id, r) ∷ calls) h =
    let ih = status_calls_open objects fresh calls h.1 in
    rw (h.0.1) (cc (h.0.0, ih.0), omega (arith, ih.1))

module _ (env : Env) where
  -- After any history the status lists the calls of the map, each under its id and in order; it counts
  -- as many as it lists, and with the pending calls no more than the limit that it states.
  pub get_status_lem :
      (b b' : BridgeState) (s : State)
      → Reach env (initial b) s
      → let status = (get_status env b' s).0 in
        (map (λ (c : CallStatus). c.call_id) status.calls ≡ map (λ e. e.0) s.calls)
        × (length status.calls ≡ status.active_calls)
        × (status.active_calls + status.pending_calls ≤ status.max_concurrent_calls)
  unfolding get_status reserved_call_count
  get_status_lem b b' s r =
      let listed =
        status_calls_open s.objects s.next_object s.calls (Reach-initial env b s r).open_calls in
      (listed.0, listed.1, (Reach-reserved_call_count-le env b s r).0)

  -- Whatever the bridge sent before, the messages of it that the status shows are clean: at every
  -- depth a sensitive key holds the word "[redacted]", and every other text has been redacted.
  pub get_status-IsCleanOption :
      (b : BridgeState) (s : State)
      → let status = (get_status env b s).0 in
        IsCleanOption env.redact status.hello × IsCleanOption env.redact status.last_status
  unfolding get_status
  get_status-IsCleanOption b s =
      let shown = update_bridge_state b s in
      (
        sanitize_optional-IsCleanOption env.redact shown.hello_snapshot,
        sanitize_optional-IsCleanOption env.redact shown.status_snapshot,
      )
