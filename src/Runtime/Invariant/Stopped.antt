-- ===== src/Runtime/Invariant/Stopped.antt =====
-- plugin/src/runtime.ts, stop: a runtime that was stopped takes no call any more.
use openclaw_sip_voice.Base.{
  ℕ, ◌≡◌, refl, ◌∙◌, true, false, String, List, [], ◌∷◌, Option, none, some, if_cases,
  if◌then◌else◌, map_get, map_delete,
}
use openclaw_sip_voice.Protocol.Builders.{RemoteParty}
use openclaw_sip_voice.Runtime.State.{
  Env, State, CallState, CallEndEvent, ending, Reply, accepted, refused, nothing, finalizing,
  hanging_up, promise, at_hand, Job, connecting, closing, hearing, speaking, Settlement, set_state,
}
use openclaw_sip_voice.Runtime.Records.{record_event, record_error, no_params, in_call}
use openclaw_sip_voice.Runtime.Sessions.{
  is_current, handle_connection_failure, finalize_call, add_job, close_session,
}
use openclaw_sip_voice.Runtime.Api.{
  handle_state_change, run_job, run_found, settle, call, close_continued, ApiResult,
  OutboundCallResult, thrown, speak, hung_up, hangup_open, hangup, close_all, stop, job_at,
}
use openclaw_sip_voice.Runtime.Start.{
  start_disabled, get_status, Step, Reach, bridge_event, bridge_state, bridge_connected,
  found_disabled, settled, sink_used, asked_status, called, spoke, stopped, here, next,
}
use openclaw_sip_voice.Runtime.Invariant.Quiet.{
  Quiet, Quiet-same, Quiet-refl, Quiet-trans, Quiet-record_event, Quiet-record_error, Quiet-send,
  Quiet-add_job, Quiet-run_sink_calls, Quiet-close_session,
}
use openclaw_sip_voice.Runtime.Invariant.Sessions.{Quiet-handle_connected, Quiet-either}
use openclaw_sip_voice.Runtime.Invariant.History.{
  Quiet-update, Quiet-close_settled, Quiet-speech_settled, Quiet-speak_open, Quiet-disconnected,
  Quiet-connected,
}

-- The runtime was stopped: its listeners are detached and it holds no call.
pub record Stopped (s : State) : Type 0 where
  pub stopped : s.stopped ≡ true
  pub deaf : s.listening ≡ false
  pub calls : s.calls ≡ []
  pub pending : s.pending_outbound_calls ≡ []

Stopped-Quiet : {s t : State} → Quiet s t → Stopped s → Stopped t
Stopped-Quiet q v = record {
  stopped = q.stopped ∙ v.stopped;
  deaf = q.listening ∙ v.deaf;
  calls = q.calls ∙ v.calls;
  pending = q.pending ∙ v.pending;
}

-- An assignment to the state of a call is none to the rest.
Stopped-set_state : (r : ℕ) (st : CallState) (s : State) → Stopped s → Stopped (set_state r st s)
Stopped-set_state r st s v = record {
  stopped = v.stopped;
  deaf = v.deaf;
  calls = v.calls;
  pending = v.pending;
}

module _ (env : Env) where
  -- No call is current when there is none.
  no_call_is_current : (r : ℕ) (s : State) → s.calls ≡ [] → is_current r s ≡ false
  unfolding is_current map_get
  no_call_is_current r s h = rw h

  handle_connection_failure-Stopped :
      (r : ℕ) (message : String) (s : State)
      → Stopped s
      → Stopped (handle_connection_failure env r message s)
  unfolding handle_connection_failure
  handle_connection_failure-Stopped r message s v =
      let context = in_call (s.objects r).call_id "session_connect_failed" in
      let q = Quiet-record_error env message context s in
      let none_left =
        no_call_is_current r (record_error env message context s) (q.calls ∙ v.calls) in
      if_cases Stopped (is_current r (record_error env message context s))
        (λ current. absurd (cc (current, none_left))) (λ _. Stopped-Quiet q v)

  finalize_call-Stopped :
      (r : ℕ) (event : CallEndEvent) (s : State) → Stopped s → Stopped (finalize_call env r event s)
  unfolding finalize_call map_delete
  finalize_call-Stopped r event s v =
      Stopped-Quiet (Quiet-record_event env _ _ _)
        (record { stopped = v.stopped; deaf = v.deaf; calls = rw (v.calls); pending = v.pending })

  run_job-Stopped :
      (job : Job) (o : Settlement) (s : State) → Stopped s → Stopped (run_job env job o s)
  unfolding run_job close_continued
  run_job-Stopped (connecting r) none s v = Stopped-Quiet (Quiet-handle_connected env r s) v
  run_job-Stopped (connecting r) (some message) s v =
      handle_connection_failure-Stopped r message s v
  run_job-Stopped (closing r nothing) o s v = Stopped-Quiet (Quiet-close_settled env _ o s) v
  run_job-Stopped (closing r (finalizing event)) o s v =
      finalize_call-Stopped r event _ (Stopped-Quiet (Quiet-close_settled env _ o s) v)
  run_job-Stopped (closing r hanging_up) o s v =
      Stopped-Quiet (Quiet-trans (Quiet-close_settled env _ o s) (Quiet-record_event env _ _ _)) v
  run_job-Stopped (hearing id) none s v = v
  run_job-Stopped (hearing id) (some message) s v = Stopped-Quiet (Quiet-record_error env _ _ s) v
  run_job-Stopped (speaking id (at_hand failure)) o s v =
      Stopped-Quiet (Quiet-speech_settled env id failure s) v
  run_job-Stopped (speaking id promise) o s v = Stopped-Quiet (Quiet-speech_settled env id o s) v

  run_found-Stopped :
      (job : Option Job) (o : Settlement) (s : State) → Stopped s → Stopped (run_found env job o s)
  unfolding run_found
  run_found-Stopped none o s v = v
  run_found-Stopped (some job) o s v = run_job-Stopped job o s v

  hung_up-Stopped :
      (id : String) (r : ℕ) (p : Reply × State) → Stopped p.1 → Stopped (hung_up env id r p).1
  unfolding hung_up
  hung_up-Stopped id r (refused message, s) v = Stopped-Quiet (Quiet-record_error env _ _ s) v
  hung_up-Stopped id r (accepted command_id, s) v =
      Stopped-Quiet
        (Quiet-trans (Quiet-close_session env r "user_request" _)
          (Quiet-either env _ (Quiet-add_job env _ _) (Quiet-record_event env _ _ _)))
        (Stopped-set_state r ending s v)

  hangup_open-Stopped :
      (id : String) (o : Option ℕ) (s : State) → Stopped s → Stopped (hangup_open env id o s).1
  unfolding hangup_open
  hangup_open-Stopped id none s v = Stopped-Quiet (Quiet-record_error env _ _ s) v
  hangup_open-Stopped id (some r) s v =
      hung_up-Stopped id r _ (Stopped-Quiet (Quiet-send env _ s) v)

  call-Stopped :
      (remote : RemoteParty) (message : Option String) (s : State)
      → Stopped s
      → ((call env remote message s).0 ≡ thrown "SIP voice runtime is stopped")
        × Stopped (call env remote message s).1
  unfolding call
  call-Stopped remote message s v =
      if_cases
        (λ (p : ApiResult OutboundCallResult × State).
          (p.0 ≡ thrown "SIP voice runtime is stopped") × Stopped p.1)
        s.stopped (λ _. (refl, Stopped-Quiet (Quiet-record_error env _ _ s) v))
        (λ running. absurd (cc (running, v.stopped)))

  Step-Stopped : {s t : State} → Step env s t → Stopped s → Stopped t
  unfolding handle_state_change start_disabled get_status speak hangup settle stop
  Step-Stopped {s} (bridge_event e on h) v = cc (on, v.deaf)
  Step-Stopped {s} (bridge_state b on) v = cc (on, v.deaf)
  Step-Stopped {s} (bridge_connected o b) v = Stopped-Quiet (Quiet-connected env o b s) v
  Step-Stopped {s} found_disabled v = Stopped-Quiet (Quiet-record_event env _ _ s) v
  Step-Stopped {s} (settled i o) v =
      run_found-Stopped (job_at i s.jobs) o _
        (Stopped-Quiet (Quiet-same refl refl refl refl refl refl ([], refl)) v)
  Step-Stopped {s} (sink_used id calls) v = Stopped-Quiet (Quiet-run_sink_calls env id calls s) v
  Step-Stopped {s} (asked_status b) v = Stopped-Quiet (Quiet-update env b s) v
  Step-Stopped {s} (called remote message) v = (call-Stopped remote message s v).1
  Step-Stopped {s} (spoke id message) v = Stopped-Quiet (Quiet-speak_open env id message _ s) v
  Step-Stopped {s} (Step.hung_up id) v = hangup_open-Stopped id _ s v
  Step-Stopped {s} stopped v =
      if_cases Stopped s.stopped (λ _. v) (λ running. absurd (cc (running, v.stopped)))

  Reach-Stopped : {s t : State} → Reach env s t → Stopped s → Stopped t
  Reach-Stopped here v = v
  Reach-Stopped (next r st) v = Step-Stopped st (Reach-Stopped r v)

  -- Closing all calls leaves alone that the runtime is stopped and deaf.
  close_all-kept :
      (calls : List (String × ℕ)) (s : State)
      → ((close_all env calls s).stopped ≡ s.stopped)
        × ((close_all env calls s).listening ≡ s.listening)
  unfolding close_all
  close_all-kept [] s = (refl, refl)
  close_all-kept ((id, r) ∷ calls) s =
      let closed = close_session env r "call_ending" (set_state r ending s) in
      let q = Quiet-trans (Quiet-close_session env r "call_ending" (set_state r ending s)) (
        Quiet-either env closed.0 (Quiet-add_job env (closing r nothing) closed.1)
          (Quiet-refl closed.1)) in
      let rest =
        close_all-kept calls
          (if closed.0 then add_job (closing r nothing) closed.1 else closed.1) in
      (rest.0 ∙ q.stopped, rest.1 ∙ q.listening)

  stop-Stopped : (s : State) → s.stopped ≡ false → Stopped (stop env s)
  unfolding stop
  stop-Stopped s h =
      if_cases Stopped s.stopped (λ yes. absurd (cc (yes, h)))
        (λ _.
          let begun = record s { stopped = true } in
          let noted = record_event env "runtime.stop" no_params begun in
          let kept = close_all-kept s.calls (record noted { listening = false }) in
          Stopped-Quiet (Quiet-trans (Quiet-send env _ _) (Quiet-disconnected env _)) (record {
            stopped = kept.0 ∙ (Quiet-record_event env "runtime.stop" no_params begun).stopped;
            deaf = kept.1;
            calls = refl;
            pending = refl;
          }))

  -- Once a running runtime was stopped it holds no call and dials none, whatever happens next, and
  -- every request for a call is refused with an error that says so.
  pub stop_is_final :
      (s t : State) (remote : RemoteParty) (message : Option String)
      → s.stopped ≡ false
      → Reach env (stop env s) t
      → (t.calls ≡ [])
        × (t.pending_outbound_calls ≡ [])
        × ((call env remote message t).0 ≡ thrown "SIP voice runtime is stopped")
  stop_is_final s t remote message h r =
      let v = Reach-Stopped r (stop-Stopped s h) in
      (v.calls, v.pending, (call-Stopped remote message t v).0)
