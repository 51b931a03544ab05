-- ===== src/Runtime/Invariant/Quiet.antt =====
-- plugin/src/runtime.ts: the operations that leave the map of calls, the pending calls and the states
-- of the calls alone: records, the bridge client, the audio sink and closing a session.
use openclaw_sip_voice.Base.{
  ℕ, ◌≡◌, refl, ap, ◌∙◌, sym, inl, inr, String, List, [], ◌∷◌, ◌++◌, append_assoc, Option, none,
  some, arith, Bool-cases, map_get,
}
use openclaw_sip_voice.Runtime.State.{
  Env, State, ManagedCall, Command, Effect, audio_out, call_hangup, Reply, accepted, refused,
  SinkCall, sink_send_audio, sink_clear, sink_mark, Session, Receiver, Invocation, Ending, returned,
  promised, threw, is_ended, modify, set_remainder, set_sequence, set_session, Job,
}
use openclaw_sip_voice.Runtime.Records.{
  record_event, record_error, EventParams, ErrorContext, in_call,
}
use openclaw_sip_voice.Runtime.Sink.{
  send, clear_buffers, cleared, send_audio_clear, frame_sent, send_frames, send_known_audio,
  sink_audio, run_sink_call, run_sink_calls,
}
use openclaw_sip_voice.Runtime.Sessions.{
  invoke, after_close_call, close_found, close_session, add_job, hang_up_failed,
}

-- More effects, the latest first.
abbrev pub Extends : List Effect → List Effect → Type 0
Extends old new = (later : List Effect) × (new ≡ later ++ old)

Extends-trans : {a b c : List Effect} → Extends a b → Extends b c → Extends a c
Extends-trans {a} (first, e) (second, k) =
    (second ++ first, k ∙ ap (λ effects. second ++ effects) e ∙ sym (append_assoc second first a))

-- What differs besides is that the surroundings may have been asked for more.
pub record Quiet (s t : State) : Type 0 where
  pub calls : t.calls ≡ s.calls
  pub pending : t.pending_outbound_calls ≡ s.pending_outbound_calls
  pub fresh : t.next_object ≡ s.next_object
  pub stopped : t.stopped ≡ s.stopped
  pub listening : t.listening ≡ s.listening
  pub ids : (r : ℕ) → (t.objects r).call_id ≡ (s.objects r).call_id
  pub states : (r : ℕ) → (t.objects r).state ≡ (s.objects r).state
  pub traced : Extends s.trace t.trace

-- A state that differs in records, jobs, snapshots and what the surroundings know, if at all.
pub Quiet-same :
    {s t : State}
    → t.calls ≡ s.calls
    → t.pending_outbound_calls ≡ s.pending_outbound_calls
    → t.next_object ≡ s.next_object
    → t.stopped ≡ s.stopped
    → t.listening ≡ s.listening
    → t.objects ≡ s.objects
    → Extends s.trace t.trace
    → Quiet s t
Quiet-same c p f d l o e = record {
  calls = c;
  pending = p;
  fresh = f;
  stopped = d;
  listening = l;
  ids = λ r. ap (λ objects. (objects r).call_id) o;
  states = λ r. ap (λ objects. (objects r).state) o;
  traced = e;
}

pub Quiet-refl : (s : State) → Quiet s s
Quiet-refl s = Quiet-same refl refl refl refl refl refl ([], refl)

pub Quiet-trans : {s t u : State} → Quiet s t → Quiet t u → Quiet s u
Quiet-trans a b = record {
  calls = b.calls ∙ a.calls;
  pending = b.pending ∙ a.pending;
  fresh = b.fresh ∙ a.fresh;
  stopped = b.stopped ∙ a.stopped;
  listening = b.listening ∙ a.listening;
  ids = λ r. b.ids r ∙ a.ids r;
  states = λ r. b.states r ∙ a.states r;
  traced = Extends-trans a.traced b.traced;
}

-- An assignment to other fields than the id and the state.
pub Quiet-modify :
    (r : ℕ) (f : ManagedCall → ManagedCall) (s : State)
    → ((call : ManagedCall) → ((f call).call_id ≡ call.call_id) × ((f call).state ≡ call.state))
    → Quiet s (modify r f s)
Quiet-modify r f s h = record {
  calls = refl;
  pending = refl;
  fresh = refl;
  stopped = refl;
  listening = refl;
  ids = λ q. ground (arith, h (s.objects r));
  states = λ q. ground (arith, h (s.objects r));
  traced = ([], refl);
}

Quiet-set_remainder : (r : ℕ) (bytes : List ℕ) (s : State) → Quiet s (set_remainder r bytes s)
Quiet-set_remainder r bytes s =
    Quiet-modify r (λ call. record call { outbound_audio_remainder = bytes }) s
      (λ call. (refl, refl))

Quiet-set_sequence : (r n : ℕ) (s : State) → Quiet s (set_sequence r n s)
Quiet-set_sequence r n s =
    Quiet-modify r (λ call. record call { next_audio_out_sequence = n }) s (λ call. (refl, refl))

pub Quiet-set_session :
    (r : ℕ) (session : Option Session) (s : State) → Quiet s (set_session r session s)
Quiet-set_session r session s =
    Quiet-modify r (λ call. record call { session = session }) s (λ call. (refl, refl))

-- The two continuations of a call of the bridge client.
pub Quiet-reply :
    (s : State) (p : Reply × State) (good bad : String → State → State)
    → Quiet s p.1
    → ((id : String) (t : State) → Quiet t (good id t))
    → ((message : String) (t : State) → Quiet t (bad message t))
    → Quiet s
        (elim p.0 as (λ _. State) [ accepted id ↦ good id p.1 | refused message ↦ bad message p.1 ])
Quiet-reply s (accepted id, t) good bad q g b = Quiet-trans q (g id t)
Quiet-reply s (refused message, t) good bad q g b = Quiet-trans q (b message t)

module _ (env : Env) where
  pub Quiet-record_event :
      (type : String) (params : EventParams) (s : State) → Quiet s (record_event env type params s)
  unfolding record_event
  Quiet-record_event type params s = Quiet-same refl refl refl refl refl refl ([], refl)

  pub Quiet-record_error :
      (message : String) (context : ErrorContext) (s : State)
      → Quiet s (record_error env message context s)
  unfolding record_error
  Quiet-record_error message context s = Quiet-same refl refl refl refl refl refl ([], refl)

  pub Quiet-send : (command : Command) (s : State) → Quiet s (send env command s).1
  unfolding send
  Quiet-send command s = Quiet-same refl refl refl refl refl refl (_ ∷ [], refl)

  pub Quiet-add_job : (job : Job) (s : State) → Quiet s (add_job job s)
  Quiet-add_job job s = Quiet-same refl refl refl refl refl refl ([], refl)

  pub Quiet-clear_buffers : (o : Option ℕ) (s : State) → Quiet s (clear_buffers env o s)
  unfolding clear_buffers
  Quiet-clear_buffers none s = Quiet-refl s
  Quiet-clear_buffers (some r) s = Quiet-set_remainder r [] s

  pub Quiet-cleared :
      (id : String) (reason : Option String) (p : Reply × State)
      → Quiet p.1 (cleared env id reason p)
  unfolding cleared
  Quiet-cleared id reason (accepted command_id, s) = Quiet-record_event _ _ s
  Quiet-cleared id reason (refused message, s) = Quiet-record_error _ _ s

  pub Quiet-send_audio_clear :
      (id : String) (reason : Option String) (s : State)
      → Quiet s (send_audio_clear env id reason s)
  unfolding send_audio_clear
  Quiet-send_audio_clear id reason s =
      Quiet-trans (Quiet-clear_buffers (map_get id s.calls) s)
        (Quiet-trans (Quiet-send _ _) (Quiet-cleared id reason _))

  Quiet-frame_sent :
      (id : String) (r : ℕ) (frame : List ℕ) (s : State) → Quiet s (frame_sent env id r frame s)
  unfolding frame_sent
  Quiet-frame_sent id r frame s = Quiet-trans (Quiet-set_sequence r _ s) (Quiet-record_event _ _ _)

  Quiet-send_frames :
      (id : String) (r : ℕ) (frames : List (List ℕ)) (s : State)
      → Quiet s (send_frames env id r frames s)
  unfolding send_frames
  Quiet-send_frames id r [] s = Quiet-refl s
  Quiet-send_frames id r (frame ∷ frames) s =
      Quiet-reply s (send env (audio_out id (s.objects r).next_audio_out_sequence frame) s)
        (λ _ t. send_frames env id r frames (frame_sent env id r frame t))
        (λ message t. record_error env message (in_call id "audio_out_failed") t) (Quiet-send _ s)
        (λ _ t. Quiet-trans (Quiet-frame_sent id r frame t) (Quiet-send_frames id r frames _))
        (λ message t. Quiet-record_error _ _ t)

  Quiet-sink_audio :
      (id : String) (audio : List ℕ) (s : State) → Quiet s (sink_audio env id audio s)
  unfolding sink_audio
  Quiet-sink_audio id audio s = known (map_get id s.calls)
    where
      known : (o : Option ℕ) → Quiet s (send_known_audio env id o audio s)
      known none = Quiet-refl s
      known (some r) = elim (Bool-cases (is_ended (s.objects r).state)) [
        | inl gone ↦ rw gone (Quiet-refl s)
        | inr here ↦ rw here (Quiet-trans (Quiet-set_remainder r _ s) (Quiet-send_frames id r _ _))
      ]

  Quiet-run_sink_call :
      (id : String) (call : SinkCall) (s : State) → Quiet s (run_sink_call env id call s)
  unfolding run_sink_call
  Quiet-run_sink_call id (sink_send_audio audio) s = Quiet-sink_audio id audio s
  Quiet-run_sink_call id (sink_clear reason) s = Quiet-send_audio_clear id _ s
  Quiet-run_sink_call id (sink_mark name) s = Quiet-record_event _ _ s

  pub Quiet-run_sink_calls :
      (id : String) (calls : List SinkCall) (s : State) → Quiet s (run_sink_calls env id calls s)
  unfolding run_sink_calls
  Quiet-run_sink_calls id [] s = Quiet-refl s
  Quiet-run_sink_calls id (call ∷ calls) s =
      Quiet-trans (Quiet-run_sink_call id call s) (Quiet-run_sink_calls id calls _)

  pub Quiet-invoke :
      (id : String) (session : Session) (receiver : Receiver) (invocation : Invocation) (s : State)
      → Quiet s (invoke env id session receiver invocation s).1
  unfolding invoke
  Quiet-invoke id session receiver invocation s =
      Quiet-trans (Quiet-same refl refl refl refl refl refl (_ ∷ [], refl))
        (Quiet-run_sink_calls id _ _)

  Quiet-after_close_call :
      (r : ℕ) (id : String) (p : Ending × State) → Quiet p.1 (after_close_call env r id p).1
  unfolding after_close_call
  Quiet-after_close_call r id (returned, s) = Quiet-set_session r none s
  Quiet-after_close_call r id (promised, s) = Quiet-set_session r none s
  Quiet-after_close_call r id (threw message, s) =
      Quiet-trans (Quiet-record_error _ _ s) (Quiet-set_session r none _)

  pub Quiet-close_found :
      (r : ℕ) (id : String) (o : Option (Session × Receiver)) (s : State)
      → Quiet s (close_found env r id o s).1
  unfolding close_found
  Quiet-close_found r id none s = Quiet-set_session r none s
  Quiet-close_found r id (some (session, receiver)) s =
      Quiet-trans (Quiet-invoke id session receiver _ s) (Quiet-after_close_call r id _)

  -- Closing a session leaves all that alone.
  pub Quiet-close_session :
      (r : ℕ) (reason : String) (s : State) → Quiet s (close_session env r reason s).1
  unfolding close_session
  Quiet-close_session r reason s =
      Quiet-trans (Quiet-send_audio_clear _ _ s) (Quiet-close_found r _ _ _)

  pub Quiet-hang_up_failed : (id : String) (s : State) → Quiet s (hang_up_failed env id s)
  unfolding hang_up_failed
  Quiet-hang_up_failed id s =
      Quiet-reply s (send env (call_hangup id "failed") s) (λ _ t. t)
        (λ message t. record_error env message (in_call id "hangup_failed") t) (Quiet-send _ s)
        (λ _ t. Quiet-refl t) (λ message t. Quiet-record_error _ _ t)
