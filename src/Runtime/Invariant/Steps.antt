-- ===== src/Runtime/Invariant/Steps.antt =====
-- plugin/src/runtime.ts: every operation of the call manager keeps the invariant, so that it holds
-- after any history.
use openclaw_sip_voice.Base.{
  ℕ, ◌+◌, ◌≤◌, ◌<◌, ◌≡◌, refl, inl, inr, Bool, true, false, String, List, [], ◌∷◌, Option, none,
  some, arith, Bool-cases, length, length-map_delete, length-map_delete_of_get,
}
use openclaw_sip_voice.Runtime.State.{
  Env, State, PendingOutboundCall, Direction, inbound, outbound, active, ending, CallEndEvent,
  Reply, accepted, refused, is_ended,
}
use openclaw_sip_voice.Runtime.Calls.{
  CallStartEvent, max_calls, can_accept_another_call, rejected, reject_call, outbound_found,
  start_or_update, end_found, new_call, answered, handle_inbound_call_start, find_pending,
  drop_pending, greet, take_outbound_call, handle_outbound_call_start, start_new_call,
  handle_call_start, drop_pending_commands, handle_call_end,
}
use openclaw_sip_voice.Runtime.Invariant.Quiet.{
  Quiet, Quiet-trans, Quiet-record_event, Quiet-record_error, Quiet-send, Quiet-add_job,
}
use openclaw_sip_voice.Runtime.Invariant.Entries.{
  Inv, Inv-Quiet, Inv-set_state, Inv-delete, Inv-add_call, room,
}
use openclaw_sip_voice.Runtime.Invariant.Sessions.{
  create_session_for_call-Inv, finish_call_after_session_close-Inv, Quiet-send_realtime_speech,
}

module _ (env : Env) where
  Quiet-rejected : (id : String) (p : Reply × State) → Quiet p.1 (rejected env id p)
  unfolding rejected
  Quiet-rejected id (accepted command_id, s) = Quiet-record_event env _ _ s
  Quiet-rejected id (refused message, s) = Quiet-record_error env _ _ s

  Quiet-reject_call : (id : String) (s : State) → Quiet s (reject_call env id s)
  unfolding reject_call
  Quiet-reject_call id s =
      Quiet-trans (Quiet-record_error env _ _ s)
        (Quiet-trans (Quiet-send env _ _) (Quiet-rejected id _))

  answered-Inv :
      (r : ℕ) (id : String) (p : Reply × State) → Inv env p.1 → Inv env (answered env r id p)
  unfolding answered
  answered-Inv r id (accepted command_id, s) v =
      create_session_for_call-Inv env r _ (Inv-Quiet env (Quiet-record_event env _ _ s) v)
  answered-Inv r id (refused message, s) v =
      Inv-delete env id _ (Inv-Quiet env (Quiet-record_error env message _ s) v)

  handle_inbound_call_start-Inv :
      (event : CallStartEvent) (s : State)
      → Inv env s
      → Inv env (handle_inbound_call_start env event s)
  unfolding handle_inbound_call_start
  handle_inbound_call_start-Inv event s v = elim (Bool-cases (can_accept_another_call env s)) [
    | inl free ↦ rw free (
        answered-Inv s.next_object event.call_id _ (
          Inv-Quiet env (Quiet-send env _ _) (
            Inv-add_call env event.call_id (new_call env event active none) s refl refl
              (room env s v free) v)))
    | inr full ↦ rw full (Inv-Quiet env (Quiet-reject_call event.call_id s) v)
  ]

  Inv-drop_pending : (o : Option String) (s : State) → Inv env s → Inv env (drop_pending env o s)
  Inv-drop_pending none s v = v
  Inv-drop_pending (some id) s v = record {
    open_calls = v.open_calls;
    fits = omega (arith, v.fits, length-map_delete id s.pending_outbound_calls);
  }

  -- A pending call that is found leaves its room to the call.
  room-find_pending :
      (o : Option String) (pending : PendingOutboundCall) (s : State)
      → Inv env s
      → find_pending env o s ≡ some pending
      → length (drop_pending env o s).calls + length (drop_pending env o s).pending_outbound_calls
        < max_calls env
  room-find_pending none pending s v e = cc
  room-find_pending (some id) pending s v e =
      omega (arith, v.fits, length-map_delete_of_get id pending s.pending_outbound_calls e)

  greet-Inv :
      (r : ℕ) (message : Option String) (p : Bool × State)
      → Inv env p.1
      → Inv env (greet env r message p)
  unfolding greet
  greet-Inv r none (b, s) v = v
  greet-Inv r (some message) (true, s) v =
      Inv-Quiet env
        (Quiet-trans (Quiet-send_realtime_speech env r message s) (Quiet-add_job env _ _)) v
  greet-Inv r (some message) (false, s) v = v

  take_outbound_call-Inv :
      (event : CallStartEvent) (message : Option String) (s : State)
      → is_ended event.state ≡ false
      → length s.calls + length s.pending_outbound_calls < max_calls env
      → Inv env s
      → Inv env (take_outbound_call env event message s)
  unfolding take_outbound_call
  take_outbound_call-Inv event message s alive h v = greet-Inv s.next_object message _ (
      create_session_for_call-Inv env s.next_object _ (
        Inv-add_call env event.call_id
          (new_call env event event.state event.requested_by_command_id) s refl alive h v))

  handle_outbound_call_start-Inv :
      (event : CallStartEvent) (s : State)
      → is_ended event.state ≡ false
      → Inv env s
      → Inv env (handle_outbound_call_start env event s)
  unfolding handle_outbound_call_start
  handle_outbound_call_start-Inv event s alive v =
      by_pending (find_pending env event.requested_by_command_id s) refl
    where
      s' : State
      s' = drop_pending env event.requested_by_command_id s

      v' : Inv env s'
      v' = Inv-drop_pending event.requested_by_command_id s v

      by_pending :
          (o : Option PendingOutboundCall)
          → find_pending env event.requested_by_command_id s ≡ o
          → Inv env (outbound_found env event o s')
      by_pending (some pending) found =
          take_outbound_call-Inv event pending.message s' alive
            (room-find_pending event.requested_by_command_id pending s v found) v'
      by_pending none missing = elim (Bool-cases (can_accept_another_call env s')) [
        | inl free ↦ rw free (take_outbound_call-Inv event none s' alive (room env s' v' free) v')
        | inr full ↦ rw full (Inv-Quiet env (Quiet-reject_call event.call_id s') v')
      ]

  start_new_call-Inv :
      (event : CallStartEvent) (direction : Direction) (s : State)
      → is_ended event.state ≡ false
      → Inv env s
      → Inv env (start_new_call env event direction s)
  start_new_call-Inv event inbound s alive v = handle_inbound_call_start-Inv event s v
  start_new_call-Inv event outbound s alive v = handle_outbound_call_start-Inv event s alive v

  start_or_update-Inv :
      (event : CallStartEvent) (o : Option ℕ) (s : State)
      → is_ended event.state ≡ false
      → Inv env s
      → Inv env (start_or_update env event o s)
  unfolding start_or_update
  start_or_update-Inv event none s alive v = start_new_call-Inv event event.direction s alive v
  start_or_update-Inv event (some r) s alive v = Inv-set_state env r event.state s alive v

  pub handle_call_start-Inv :
      (event : CallStartEvent) (s : State)
      → is_ended event.state ≡ false
      → Inv env s
      → Inv env (handle_call_start env event s)
  unfolding handle_call_start
  handle_call_start-Inv event s alive v =
      start_or_update-Inv event _ _ alive (Inv-Quiet env (Quiet-record_event env _ _ s) v)

  length-drop_pending_commands :
      (id : String) (m : List (String × PendingOutboundCall))
      → length (drop_pending_commands env id m) ≤ length m
  unfolding drop_pending_commands
  length-drop_pending_commands id [] = omega arith
  length-drop_pending_commands id ((key, pending) ∷ m) =
      ground (arith, length-drop_pending_commands id m)

  end_found-Inv :
      (event : CallEndEvent) (o : Option ℕ) (s : State)
      → Inv env s
      → Inv env (end_found env event o s)
  unfolding end_found
  end_found-Inv event none s v = Inv-Quiet env (Quiet-record_event env _ _ _) (record {
    open_calls = v.open_calls;
    fits =
        omega (arith, v.fits, length-drop_pending_commands event.call_id s.pending_outbound_calls);
  })
  end_found-Inv event (some r) s v =
      finish_call_after_session_close-Inv env r event _ (Inv-set_state env r ending s refl v)

  pub handle_call_end-Inv :
      (event : CallEndEvent) (s : State) → Inv env s → Inv env (handle_call_end env event s)
  unfolding handle_call_end
  handle_call_end-Inv event s v = end_found-Inv event _ s v
