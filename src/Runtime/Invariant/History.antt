-- ===== src/Runtime/Invariant/History.antt =====
-- plugin/src/runtime.ts: the invariant after any history, and what it means for the limit on calls.
use openclaw_sip_voice.Base.{
  ℕ, ◌+◌, ◌≤◌, ◌<◌, ◌≡◌, refl, ap, String, [], Option, none, some, arith, length, length-map_set,
  length-map_delete, if_cases,
}
use openclaw_sip_voice.Protocol.Builders.{RemoteParty}
use openclaw_sip_voice.Runtime.State.{
  Env, State, BridgeState, ending, Reply, accepted, refused, AfterClose, nothing, finalizing,
  hanging_up, promise, at_hand, Job, connecting, closing, hearing, speaking, Settlement, call_dial,
}
use openclaw_sip_voice.Runtime.Calls.{max_calls, can_accept_another_call, reserved_call_count}
use openclaw_sip_voice.Runtime.Api.{
  BridgeEvent, hello, status, error, call_start, audio_in, call_end, forget_pending,
  update_bridge_state, handle_bridge_event, handle_state_change, close_settled, close_continued,
  speech_settled, run_job, run_found, settle, dialed, call, ApiResult, OutboundCallResult,
  speak_open, speak, hung_up, hangup_open, hangup, disconnected, stop,
}
use openclaw_sip_voice.Runtime.Start.{
  initial, status_requested, connected, start_disabled, get_status, IsStart, Step, Reach,
  bridge_event, bridge_state, bridge_connected, found_disabled, settled, sink_used, asked_status,
  called, spoke, stopped, here, next,
}
use openclaw_sip_voice.Runtime.Invariant.Quiet.{
  Quiet, Quiet-same, Quiet-refl, Quiet-trans, Quiet-record_event, Quiet-record_error, Quiet-send,
  Quiet-add_job, Quiet-run_sink_calls, Quiet-close_session,
}
use openclaw_sip_voice.Runtime.Invariant.Entries.{
  Inv, Inv-Quiet, Inv-set_state, room, reserved_call_count-Inv,
}
use openclaw_sip_voice.Runtime.Invariant.Sessions.{
  finalize_call-Inv, handle_connection_failure-Inv, Quiet-handle_connected,
  Quiet-send_audio_to_realtime, Quiet-send_realtime_speech, Quiet-either,
}
use openclaw_sip_voice.Runtime.Invariant.Steps.{handle_call_start-Inv, handle_call_end-Inv}

module _ (env : Env) where
  pub Quiet-update : (b : BridgeState) (s : State) → Quiet s (update_bridge_state b s)
  unfolding update_bridge_state
  Quiet-update b s = Quiet-same refl refl refl refl refl refl ([], refl)

  Inv-forget_pending : (o : Option String) (s : State) → Inv env s → Inv env (forget_pending o s)
  Inv-forget_pending none s v = v
  Inv-forget_pending (some id) s v = record {
    open_calls = v.open_calls;
    fits = omega (arith, v.fits, length-map_delete id s.pending_outbound_calls);
  }

  handle_bridge_event-Inv :
      (e : BridgeEvent) (s : State)
      → IsStart env e
      → Inv env s
      → Inv env (handle_bridge_event env e s)
  unfolding handle_bridge_event
  handle_bridge_event-Inv (hello whole bridge_id bridge_version) s h v =
      Inv-Quiet env
        (Quiet-trans (Quiet-same refl refl refl refl refl refl ([], refl))
          (Quiet-record_event env _ _ _))
        v
  handle_bridge_event-Inv (status whole state registration n) s h v =
      Inv-Quiet env
        (Quiet-trans (Quiet-same refl refl refl refl refl refl ([], refl))
          (Quiet-record_event env _ _ _))
        v
  handle_bridge_event-Inv (error message code fatal id command_id) s h v =
      Inv-Quiet env (Quiet-record_error env _ _ _) (Inv-forget_pending command_id s v)
  handle_bridge_event-Inv (call_start event) s h v = handle_call_start-Inv env event s h v
  handle_bridge_event-Inv (audio_in id sequence bytes) s h v =
      Inv-Quiet env (Quiet-send_audio_to_realtime env id sequence bytes s) v
  handle_bridge_event-Inv (call_end event) s h v = handle_call_end-Inv env event s v

  pub Quiet-close_settled :
      (id : String) (o : Settlement) (s : State) → Quiet s (close_settled env id o s)
  unfolding close_settled
  Quiet-close_settled id none s = Quiet-refl s
  Quiet-close_settled id (some message) s = Quiet-record_error env _ _ s

  close_continued-Inv :
      (r : ℕ) (after : AfterClose) (s : State) → Inv env s → Inv env (close_continued env r after s)
  unfolding close_continued
  close_continued-Inv r nothing s v = v
  close_continued-Inv r (finalizing event) s v = finalize_call-Inv env r event s v
  close_continued-Inv r hanging_up s v = Inv-Quiet env (Quiet-record_event env _ _ s) v

  pub Quiet-speech_settled :
      (id : String) (o : Option String) (s : State) → Quiet s (speech_settled env id o s)
  unfolding speech_settled
  Quiet-speech_settled id none s = Quiet-record_event env _ _ s
  Quiet-speech_settled id (some message) s = Quiet-record_error env _ _ s

  run_job-Inv : (job : Job) (o : Settlement) (s : State) → Inv env s → Inv env (run_job env job o s)
  unfolding run_job
  run_job-Inv (connecting r) none s v = Inv-Quiet env (Quiet-handle_connected env r s) v
  run_job-Inv (connecting r) (some message) s v = handle_connection_failure-Inv env r message s v
  run_job-Inv (closing r after) o s v =
      close_continued-Inv r after _ (Inv-Quiet env (Quiet-close_settled _ o s) v)
  run_job-Inv (hearing id) none s v = v
  run_job-Inv (hearing id) (some message) s v = Inv-Quiet env (Quiet-record_error env _ _ s) v
  run_job-Inv (speaking id (at_hand failure)) o s v =
      Inv-Quiet env (Quiet-speech_settled id failure s) v
  run_job-Inv (speaking id promise) o s v = Inv-Quiet env (Quiet-speech_settled id o s) v

  run_found-Inv :
      (o : Option Job) (outcome : Settlement) (s : State)
      → Inv env s
      → Inv env (run_found env o outcome s)
  unfolding run_found
  run_found-Inv none outcome s v = v
  run_found-Inv (some job) outcome s v = run_job-Inv job outcome s v

  settle-Inv :
      (i : ℕ) (outcome : Settlement) (s : State) → Inv env s → Inv env (settle env i outcome s)
  unfolding settle
  settle-Inv i outcome s v =
      run_found-Inv _ outcome _
        (Inv-Quiet env (Quiet-same refl refl refl refl refl refl ([], refl)) v)

  dialed-Inv :
      (remote : RemoteParty) (message : Option String) (p : Reply × State)
      → length p.1.calls + length p.1.pending_outbound_calls < max_calls env
      → Inv env p.1
      → Inv env (dialed env remote message p).1
  unfolding dialed
  dialed-Inv remote message (refused failure, s) h v =
      Inv-Quiet env (Quiet-record_error env _ _ s) v
  dialed-Inv remote message (accepted id, s) h v =
      Inv-Quiet env (Quiet-record_event env _ _ _) (record {
        open_calls = v.open_calls;
        fits = omega (arith, h, length-map_set id _ s.pending_outbound_calls);
      })

  call-Inv :
      (remote : RemoteParty) (message : Option String) (s : State)
      → Inv env s
      → Inv env (call env remote message s).1
  unfolding call
  call-Inv remote message s v =
      let P = λ (p : ApiResult OutboundCallResult × State). Inv env p.1 in
      if_cases P s.stopped (λ _. Inv-Quiet env (Quiet-record_error env _ _ s) v)
        λ _.
          if_cases P env.enabled
            (λ _.
              if_cases P (can_accept_another_call env s)
                (λ free.
                  let q = Quiet-send env (call_dial remote) s in
                  dialed-Inv remote message _
                    (omega (arith, room env s v free, ap length q.calls, ap length q.pending))
                    (Inv-Quiet env q v))
                (λ _. Inv-Quiet env (Quiet-record_error env _ _ s) v))
            (λ _. Inv-Quiet env (Quiet-record_error env _ _ s) v)

  pub Quiet-speak_open :
      (id message : String) (o : Option ℕ) (s : State) → Quiet s (speak_open env id message o s).1
  unfolding speak_open
  Quiet-speak_open id message none s = Quiet-record_error env _ _ s
  Quiet-speak_open id message (some r) s =
      Quiet-trans (Quiet-send_realtime_speech env r message s) (Quiet-add_job env _ _)

  hung_up-Inv :
      (id : String) (r : ℕ) (p : Reply × State) → Inv env p.1 → Inv env (hung_up env id r p).1
  unfolding hung_up
  hung_up-Inv id r (refused message, s) v = Inv-Quiet env (Quiet-record_error env _ _ s) v
  hung_up-Inv id r (accepted command_id, s) v =
      Inv-Quiet env
        (Quiet-trans (Quiet-close_session env r "user_request" _)
          (Quiet-either env _ (Quiet-add_job env _ _) (Quiet-record_event env _ _ _)))
        (Inv-set_state env r ending s refl v)

  hangup_open-Inv :
      (id : String) (o : Option ℕ) (s : State) → Inv env s → Inv env (hangup_open env id o s).1
  unfolding hangup_open
  hangup_open-Inv id none s v = Inv-Quiet env (Quiet-record_error env _ _ s) v
  hangup_open-Inv id (some r) s v = hung_up-Inv id r _ (Inv-Quiet env (Quiet-send env _ s) v)

  pub Quiet-disconnected : (p : Reply × State) → Quiet p.1 (disconnected env p)
  unfolding disconnected
  Quiet-disconnected (accepted _, s) = Quiet-refl s
  Quiet-disconnected (refused message, s) = Quiet-record_error env _ _ s

  -- No call at all.
  Inv-empty : (s : State) → s.calls ≡ [] → s.pending_outbound_calls ≡ [] → Inv env s
  Inv-empty s c p = record { open_calls = rw c tt; fits = rw (c, p) (omega arith) }

  stop-Inv : (s : State) → Inv env s → Inv env (stop env s)
  unfolding stop
  stop-Inv s v =
      if_cases (Inv env) s.stopped (λ _. v)
        (λ _.
          Inv-Quiet env (Quiet-trans (Quiet-send env _ _) (Quiet-disconnected _))
            (Inv-empty _ refl refl))

  Quiet-status_requested : (p : Reply × State) → Quiet p.1 (status_requested env p)
  unfolding status_requested
  Quiet-status_requested (accepted _, s) = Quiet-refl s
  Quiet-status_requested (refused message, s) = Quiet-record_error env _ _ s

  pub Quiet-connected :
      (o : Settlement) (b : BridgeState) (s : State) → Quiet s (connected env o b s)
  unfolding connected
  Quiet-connected none b s = Quiet-trans (Quiet-update b s) (
      Quiet-trans (Quiet-record_event env _ _ _)
        (Quiet-trans (Quiet-send env _ _) (Quiet-status_requested _)))
  Quiet-connected (some message) b s = Quiet-trans (Quiet-update b s) (Quiet-record_error env _ _ _)

  -- Whatever happens next, the invariant holds again.
  pub Step-Inv : {s t : State} → Step env s t → Inv env s → Inv env t
  unfolding handle_state_change start_disabled get_status speak hangup
  Step-Inv {s} (bridge_event e on h) v = handle_bridge_event-Inv e s h v
  Step-Inv {s} (bridge_state b on) v =
      Inv-Quiet env (Quiet-trans (Quiet-update b s) (Quiet-record_event env _ _ _)) v
  Step-Inv {s} (bridge_connected o b) v = Inv-Quiet env (Quiet-connected o b s) v
  Step-Inv {s} found_disabled v = Inv-Quiet env (Quiet-record_event env _ _ s) v
  Step-Inv {s} (settled i o) v = settle-Inv i o s v
  Step-Inv {s} (sink_used id calls) v = Inv-Quiet env (Quiet-run_sink_calls env id calls s) v
  Step-Inv {s} (asked_status b) v = Inv-Quiet env (Quiet-update b s) v
  Step-Inv {s} (called remote message) v = call-Inv remote message s v
  Step-Inv {s} (spoke id message) v = Inv-Quiet env (Quiet-speak_open id message _ s) v
  Step-Inv {s} (Step.hung_up id) v = hangup_open-Inv id _ s v
  Step-Inv {s} stopped v = stop-Inv s v

  Reach-Inv : {s t : State} → Inv env s → Reach env s t → Inv env t
  Reach-Inv v here = v
  Reach-Inv v (next r st) = Step-Inv st (Reach-Inv v r)

  initial-Inv : (b : BridgeState) → Inv env (initial b)
  unfolding initial
  initial-Inv b = Inv-empty _ refl refl

  -- After any history the calls that have not ended and the calls that are being dialed are, together,
  -- within the limit, and every call that the map holds has not ended.
  pub Reach-reserved_call_count-le :
      (b : BridgeState) (s : State)
      → Reach env (initial b) s
      → (reserved_call_count s ≤ max_calls env)
        × (reserved_call_count s ≡ length s.calls + length s.pending_outbound_calls)
  Reach-reserved_call_count-le b s r =
      let v = Reach-Inv (initial-Inv b) r in
      let e = reserved_call_count-Inv env s v in (omega (arith, e, v.fits), e)

  pub Reach-initial : (b : BridgeState) (s : State) → Reach env (initial b) s → Inv env s
  Reach-initial b s r = Reach-Inv (initial-Inv b) r
