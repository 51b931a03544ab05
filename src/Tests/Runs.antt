-- ===== src/Tests/Runs.antt =====
-- plugin/src/runtime.ts: the records, the status, the end of a call and of the runtime.
use openclaw_sip_voice.Base.{
  ℕ, ◌+◌, ◌≤◌, ◌≡◌, refl, String, List, [], ◌∷◌, none, some, length, map, true, map_get, map_set,
}
use openclaw_sip_voice.Protocol.Value.{nat, str, obj, end, field}
use openclaw_sip_voice.Protocol.Messages.{returned}
use openclaw_sip_voice.Protocol.Builders.{command_envelope, optional_field, build_audio_clear}
use openclaw_sip_voice.Protocol.Builders.Accepted.{validation}
use openclaw_sip_voice.Runtime.State.{PendingOutboundCall, BridgeState}
use openclaw_sip_voice.Runtime.Records.{limit_from_tail_request, last_records, tail_of, push_recent}
use openclaw_sip_voice.Runtime.Records.Tail.{push_all, tail_of-push_all}
use openclaw_sip_voice.Runtime.Sink.{send_frames, audio_clear_reason_from_value}
use openclaw_sip_voice.Runtime.Sink.ClearReason.{audio_clear_of_any_reason}
use openclaw_sip_voice.Runtime.Invariant.Failing.{
  ClearRefused, handle_connection_failure-ClearRefused,
}
use openclaw_sip_voice.Runtime.Sink.Sequence.{Sent, send_frames-Sent}
use openclaw_sip_voice.Runtime.Sessions.{is_current, close_session, handle_connection_failure}
use openclaw_sip_voice.Runtime.Sessions.Closing.{close_session-session}
use openclaw_sip_voice.Runtime.Calls.{drop_pending_commands, add_call}
use openclaw_sip_voice.Runtime.Calls.Pending.{drop_pending_commands-keeps}
use openclaw_sip_voice.Runtime.Api.{thrown, call_start, handle_bridge_event, call, stop}
use openclaw_sip_voice.Runtime.Start.{
  CallStatus, initial, get_status, here, next, bridge_event, called,
}
use openclaw_sip_voice.Runtime.Invariant.Stopped.{stop_is_final}
use openclaw_sip_voice.Runtime.Invariant.Status.{get_status_lem, get_status-IsCleanOption}
use openclaw_sip_voice.Runtime.Snapshot.Clean.{IsCleanOption}
use openclaw_sip_voice.Tests.Inputs.{texts, parses, defaults, no_options}
use openclaw_sip_voice.Tests.Surroundings.{calm, alice, connected_bridge, ringing_call, busy}

abbrev three : List ℕ
three = 7 ∷ 8 ∷ 9 ∷ []

tail_of-push_all_example :
    (tail_of (limit_from_tail_request (some (nat 2))) (push_all [] three)
      ≡ last_records (limit_from_tail_request (some (nat 2))) three)
    × (limit_from_tail_request (some (nat 2)) ≤ 50)
tail_of-push_all_example = tail_of-push_all (some (nat 2)) three

tail_tests :
    (tail_of (limit_from_tail_request (some (nat 2))) (push_all [] three) ≡ 8 ∷ 9 ∷ [])
    × (limit_from_tail_request none ≡ 20)
unfolding tail_of limit_from_tail_request last_records push_recent
tail_tests = (refl, refl)

stop_is_final_example :
    ((call calm alice none (stop calm busy)).1.calls ≡ [])
    × ((call calm alice none (stop calm busy)).1.pending_outbound_calls ≡ [])
    × ((call calm alice none (call calm alice none (stop calm busy)).1).0
        ≡ thrown "SIP voice runtime is stopped")
unfolding add_call initial
stop_is_final_example =
    stop_is_final calm busy (call calm alice none (stop calm busy)).1 alice none refl
      (next here (called alice none))

get_status_lem_example :
    let s = handle_bridge_event calm (call_start ringing_call) (initial connected_bridge) in
    let status = (get_status calm connected_bridge s).0 in
    (map (λ (c : CallStatus). c.call_id) status.calls ≡ map (λ e. e.0) s.calls)
    × (length status.calls ≡ status.active_calls)
    × (status.active_calls + status.pending_calls ≤ status.max_concurrent_calls)
unfolding initial
get_status_lem_example =
    get_status_lem calm connected_bridge connected_bridge
      (handle_bridge_event calm (call_start ringing_call) (initial connected_bridge))
      (next here (bridge_event (call_start ringing_call) refl refl))

audio_clear_of_any_reason_example :
    let reason = some (audio_clear_reason_from_value (obj (field "reason" (str "odd") end))) in
    build_audio_clear parses defaults no_options "call_000001" reason
    ≡ returned (
        obj (
          command_envelope "audio.clear" no_options defaults (
            field "callId"
              (str "call_000001")
              (field "scope" (str "queued") (optional_field "reason" reason end)))))
unfolding texts validation
audio_clear_of_any_reason_example =
    audio_clear_of_any_reason parses defaults no_options "call_000001"
      (obj (field "reason" (str "odd") end)) refl

busy-is_current : is_current 0 busy ≡ true
unfolding is_current map_get add_call map_set initial
busy-is_current = refl

handle_connection_failure-ClearRefused_example :
    ClearRefused parses defaults no_options "call_000001" busy
      (handle_connection_failure calm 0 "no route" busy)
unfolding add_call initial
handle_connection_failure-ClearRefused_example =
    handle_connection_failure-ClearRefused calm parses defaults no_options 0 "no route" busy
      busy-is_current

abbrev pending_calls : List (String × PendingOutboundCall)
pending_calls =
    (
      "cmd_000001",
      record { command_id = "cmd_000001"; remote = alice; message = none; started_at = "now" },
    )
    ∷ []

drop_pending_commands-keeps_example :
    drop_pending_commands calm "call_000001" pending_calls ≡ pending_calls
unfolding texts validation
drop_pending_commands-keeps_example =
    drop_pending_commands-keeps calm "call_000001" pending_calls refl (refl, tt)

close_session-session_example :
    ((close_session calm 0 "call_ending" busy).1.objects 0).session ≡ none
close_session-session_example = close_session-session calm 0 "call_ending" busy

send_frames-Sent_example :
    Sent "call_000001" 0
      ((1 ∷ []) ∷ (2 ∷ []) ∷ [])
      busy
      (send_frames calm "call_000001" 0 ((1 ∷ []) ∷ (2 ∷ []) ∷ []) busy)
send_frames-Sent_example = send_frames-Sent calm "call_000001" 0 ((1 ∷ []) ∷ (2 ∷ []) ∷ []) busy

-- A status event with a sensitive key.
abbrev told : BridgeState
told = record {
  connection_state = "connected";
  last_error = none;
  hello = none;
  last_status = some (obj (field "sipUser" (str "alice") (field "state" (str "up") end)));
}

get_status-IsCleanOption_example :
    IsCleanOption calm.redact (get_status calm told busy).0.hello
    × IsCleanOption calm.redact (get_status calm told busy).0.last_status
get_status-IsCleanOption_example = get_status-IsCleanOption calm told busy
