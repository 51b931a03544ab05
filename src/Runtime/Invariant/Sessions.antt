-- ===== src/Runtime/Invariant/Sessions.antt =====
-- plugin/src/runtime.ts: starting, connecting, ending and failing a session keep the invariant.
use openclaw_sip_voice.Base.{
  ℕ, suc, ◌≡◌, refl, ◌∙◌, inl, inr, Bool, true, false, String, Option, none, some, Bool-cases,
  if◌then◌else◌, [], ◌∷◌,
}
use openclaw_sip_voice.Protocol.Value.{Number}
use openclaw_sip_voice.Runtime.State.{
  Env, State, Session, Receiver, Ending, returned, promised, threw, Creation, created, not_created,
  CallEndEvent, ending, ended, finalizing, closing, Job, is_ended,
}
use openclaw_sip_voice.Runtime.Records.{record_error}
use openclaw_sip_voice.Runtime.Sink.{run_sink_calls}
use openclaw_sip_voice.Runtime.Sessions.{
  is_current, add_job, end_call, close_session, finalize_call, finish_call_after_session_close,
  hang_up_failed, close_failed, handle_connection_failure, handle_connected, after_connect_call,
  connect_found, connect_realtime_session, after_creation, create_session_for_call, after_hearing,
  hear_found, hear_call, send_audio_to_realtime, after_speaking, speak_found, send_realtime_speech,
}
use openclaw_sip_voice.Runtime.Invariant.Quiet.{
  Quiet, Quiet-same, Quiet-refl, Quiet-trans, Quiet-record_event, Quiet-record_error, Quiet-add_job,
  Quiet-run_sink_calls, Quiet-invoke, Quiet-close_session, Quiet-hang_up_failed, Quiet-set_session,
}
use openclaw_sip_voice.Runtime.Invariant.Entries.{Inv, Inv-Quiet, Inv-set_state, Inv-remove}

module _ (env : Env) where
  pub Quiet-either :
      (b : Bool) {s t u : State} → Quiet s t → Quiet s u → Quiet s (if b then t else u)
  Quiet-either true p q = p
  Quiet-either false p q = q

  Quiet-if :
      (b : Bool) (job : Job) (s t : State) → Quiet s t → Quiet s (if b then add_job job t else t)
  Quiet-if true job s t q = Quiet-trans q (Quiet-add_job env job t)
  Quiet-if false job s t q = q

  pub finalize_call-Inv :
      (r : ℕ) (event : CallEndEvent) (s : State) → Inv env s → Inv env (finalize_call env r event s)
  unfolding finalize_call
  finalize_call-Inv r event s v = Inv-Quiet env (Quiet-record_event env _ _ _) (
      Inv-remove env r (end_call (env.now s.clock_reads) event) (s.objects r).call_id
        (record s { clock_reads = suc s.clock_reads }) refl
        (Inv-Quiet env (Quiet-same refl refl refl refl refl refl ([], refl)) v))

  pub finish_call_after_session_close-Inv :
      (r : ℕ) (event : CallEndEvent) (s : State)
      → Inv env s
      → Inv env (finish_call_after_session_close env r event s)
  unfolding finish_call_after_session_close
  finish_call_after_session_close-Inv r event s v =
      let after = Inv-Quiet env (Quiet-close_session env r "call_ending" s) v in
      by_result (close_session env r "call_ending" s).0 (close_session env r "call_ending" s).1
        after
    where
      by_result :
          (waits : Bool) (t : State)
          → Inv env t
          → Inv env (
              if waits
              then add_job (closing r (finalizing event)) t
              else finalize_call env r event t)
      by_result true t w = Inv-Quiet env (Quiet-add_job env _ t) w
      by_result false t w = finalize_call-Inv r event t w

  close_failed-Inv : (r : ℕ) (s : State) → Inv env s → Inv env (close_failed env r s)
  unfolding close_failed
  close_failed-Inv r s v =
      Inv-Quiet env (Quiet-if _ _ _ _ (Quiet-close_session env r "session_connect_failed" _))
        (Inv-set_state env r ending s refl v)

  pub handle_connection_failure-Inv :
      (r : ℕ) (message : String) (s : State)
      → Inv env s
      → Inv env (handle_connection_failure env r message s)
  unfolding handle_connection_failure
  handle_connection_failure-Inv r message s v =
      by_test _ _ (Inv-Quiet env (Quiet-record_error env message _ s) v)
    where
      by_test :
          (b : Bool) (t : State)
          → Inv env t
          → Inv env
              (if b then close_failed env r (hang_up_failed env (s.objects r).call_id t) else t)
      by_test true t w = close_failed-Inv r _ (Inv-Quiet env (Quiet-hang_up_failed env _ t) w)
      by_test false t w = w

  pub Quiet-handle_connected : (r : ℕ) (s : State) → Quiet s (handle_connected env r s)
  unfolding handle_connected
  Quiet-handle_connected r s = elim (Bool-cases (is_current r s)) [
    | inl current ↦ rw current (Quiet-record_event env _ _ s)
    | inr gone ↦ rw gone (Quiet-refl s)
  ]

  after_connect_call-Inv :
      (r : ℕ) (id : String) (p : Ending × State)
      → Inv env p.1
      → Inv env (after_connect_call env r id p)
  unfolding after_connect_call
  after_connect_call-Inv r id (returned, s) v =
      Inv-Quiet env (Quiet-trans (Quiet-record_event env _ _ s) (Quiet-handle_connected r _)) v
  after_connect_call-Inv r id (promised, s) v =
      Inv-Quiet env (Quiet-trans (Quiet-record_event env _ _ s) (Quiet-add_job env _ _)) v
  after_connect_call-Inv r id (threw message, s) v = handle_connection_failure-Inv r message s v

  connect_found-Inv :
      (r : ℕ) (id : String) (o : Option (Session × Receiver)) (s : State)
      → Inv env s
      → Inv env (connect_found env r id o s)
  unfolding connect_found
  connect_found-Inv r id none s v = Inv-Quiet env (Quiet-record_error env _ _ s) v
  connect_found-Inv r id (some (session, receiver)) s v =
      after_connect_call-Inv r id _ (Inv-Quiet env (Quiet-invoke env id session receiver _ s) v)

  pub connect_realtime_session-Inv :
      (r : ℕ) (s : State) → Inv env s → Inv env (connect_realtime_session env r s)
  unfolding connect_realtime_session
  connect_realtime_session-Inv r s v = connect_found-Inv r _ _ s v

  after_creation-Inv :
      (r : ℕ) (creation : Creation) (id : String) (s : State)
      → (s.objects r).call_id ≡ id
      → Inv env s
      → Inv env (after_creation env r id creation s).1
  unfolding after_creation
  after_creation-Inv r (created calls session) id s here v = connect_realtime_session-Inv r _ (
      Inv-Quiet env
        (Quiet-trans (Quiet-run_sink_calls env id calls s)
          (Quiet-trans (Quiet-set_session r (some session) _) (Quiet-record_event env _ _ _)))
        v)
  after_creation-Inv r (not_created calls message) id s here v =
      let q : Quiet s
          (hang_up_failed env id (record_error env message _ (run_sink_calls env id calls s))) =
        Quiet-trans (Quiet-run_sink_calls env id calls s)
          (Quiet-trans (Quiet-record_error env message _ _) (Quiet-hang_up_failed env id _)) in
      Inv-remove env r (λ call. record call { state = ended }) id _ (q.ids r ∙ here)
        (Inv-Quiet env q v)

  pub create_session_for_call-Inv :
      (r : ℕ) (s : State) → Inv env s → Inv env (create_session_for_call env r s).1
  unfolding create_session_for_call
  create_session_for_call-Inv r s v =
      after_creation-Inv r _ _ _ refl
        (Inv-Quiet env (Quiet-same refl refl refl refl refl refl (_ ∷ [], refl)) v)

  Quiet-after_hearing :
      (id : String) (sequence : Number) (bytes : ℕ) (p : Ending × State)
      → Quiet p.1 (after_hearing env id sequence bytes p)
  unfolding after_hearing
  Quiet-after_hearing id sequence bytes (returned, s) = Quiet-record_event env _ _ s
  Quiet-after_hearing id sequence bytes (promised, s) =
      Quiet-trans (Quiet-record_event env _ _ s) (Quiet-add_job env _ _)
  Quiet-after_hearing id sequence bytes (threw message, s) = Quiet-record_error env _ _ s

  Quiet-hear_found :
      (id : String) (sequence : Number) (bytes : ℕ) (o : Option (Session × Receiver)) (s : State)
      → Quiet s (hear_found env id sequence bytes o s)
  unfolding hear_found
  Quiet-hear_found id sequence bytes none s = Quiet-record_error env _ _ s
  Quiet-hear_found id sequence bytes (some (session, receiver)) s =
      Quiet-trans (Quiet-invoke env id session receiver _ s)
        (Quiet-after_hearing id sequence bytes _)

  Quiet-hear_call :
      (id : String) (sequence : Number) (bytes : ℕ) (o : Option ℕ) (s : State)
      → Quiet s (hear_call env id sequence bytes o s)
  unfolding hear_call
  Quiet-hear_call id sequence bytes none s = Quiet-record_error env _ _ s
  Quiet-hear_call id sequence bytes (some r) s =
      Quiet-either (is_ended (s.objects r).state) (Quiet-record_error env _ _ s)
        (Quiet-hear_found id sequence bytes _ s)

  pub Quiet-send_audio_to_realtime :
      (id : String) (sequence : Number) (bytes : ℕ) (s : State)
      → Quiet s (send_audio_to_realtime env id sequence bytes s)
  unfolding send_audio_to_realtime
  Quiet-send_audio_to_realtime id sequence bytes s = Quiet-hear_call id sequence bytes _ s

  Quiet-after_speaking : (id : String) (p : Ending × State) → Quiet p.1 (after_speaking env id p).1
  unfolding after_speaking
  Quiet-after_speaking id (returned, s) = Quiet-refl s
  Quiet-after_speaking id (promised, s) = Quiet-refl s
  Quiet-after_speaking id (threw message, s) = Quiet-refl s

  Quiet-speak_found :
      (id message : String) (speak text : Option (Session × Receiver)) (s : State)
      → Quiet s (speak_found env id message speak text s).1
  unfolding speak_found
  Quiet-speak_found id message (some (session, receiver)) text s =
      Quiet-trans (Quiet-invoke env id session receiver _ s) (Quiet-after_speaking id _)
  Quiet-speak_found id message none (some (session, receiver)) s =
      Quiet-trans (Quiet-invoke env id session receiver _ s) (Quiet-after_speaking id _)
  Quiet-speak_found id message none none s = Quiet-refl s

  pub Quiet-send_realtime_speech :
      (r : ℕ) (message : String) (s : State) → Quiet s (send_realtime_speech env r message s).1
  unfolding send_realtime_speech
  Quiet-send_realtime_speech r message s = Quiet-speak_found _ message _ _ s
