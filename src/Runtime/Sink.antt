-- ===== src/Runtime/Sink.antt =====
-- plugin/src/runtime.ts: the audio sink that a realtime session writes to, and sendAudioClear.
pub mod ClearReason
pub mod Sequence
use openclaw_sip_voice.Base.{
  ℕ, ◌+◌, ◌||◌, String, List, [], ◌∷◌, Option, none, some, if◌then◌else◌, ◌==◌, map_get, length,
}
use openclaw_sip_voice.Protocol.Value.{Value, str, obj, num, nat, Fields, end, field}
use openclaw_sip_voice.Runtime.Audio.{pop_outbound_audio_frames}
use openclaw_sip_voice.Runtime.State.{
  Env, State, Command, audio_out, audio_clear, Reply, accepted, refused, SinkCall, sink_send_audio,
  sink_clear, sink_mark, sent, is_ended, set_remainder, set_sequence,
}
use openclaw_sip_voice.Runtime.Records.{record_event, record_error, for_call, in_call}

-- audioClearReasonFromValue: a reason, or that of the `reason` of an object, at any depth.
unfoldable mutual
  pub audio_clear_reason_from_value : Value → String
  audio_clear_reason_from_value (str s) =
      if s == "barge_in" || s == "user_request" || s == "call_ending" then s else "barge_in"
  audio_clear_reason_from_value (obj fs) = reason_from_fields fs
  audio_clear_reason_from_value _ = "barge_in"

  pub reason_from_fields : Fields → String
  reason_from_fields end = "barge_in"
  reason_from_fields (field k v fs) =
      if k == "reason" then audio_clear_reason_from_value v else reason_from_fields fs

abbrev pub reason_details : Option String → Option (List (String × Value))
reason_details none = none
reason_details (some reason) = some (("reason", str reason) ∷ [])

module _ (env : Env) where
  -- A call of the bridge client: its reply, and the state that knows of it.
  unfoldable pub send : Command → State → Reply × State
  send command s =
      let reply = env.send s.trace command in
      (reply, record s { trace = sent command reply ∷ s.trace })

  -- clearOutboundAudioBuffers, if there is such a call
  unfoldable pub clear_buffers : Option ℕ → State → State
  clear_buffers none s = s
  clear_buffers (some r) s = set_remainder r [] s

  unfoldable pub cleared : String → Option String → Reply × State → State
  cleared id reason (accepted command_id, s) =
      record_event env "audio.clear"
        (record { call_id = some id; message = none; details = reason_details reason }) s
  cleared id reason (refused message, s) =
      record_error env message (in_call id "audio_clear_failed") s

  -- sendAudioClear
  unfoldable pub send_audio_clear : String → Option String → State → State
  unfolding send clear_buffers cleared
  send_audio_clear id reason s =
      cleared id reason (send (audio_clear id reason) (clear_buffers (map_get id s.calls) s))

  -- The body of the loop for a frame that was sent.
  unfoldable pub frame_sent : String → ℕ → List ℕ → State → State
  frame_sent id r frame s =
      let sequence = (s.objects r).next_audio_out_sequence in
      record_event env "audio.out"
        (for_call id (("sequence", num (nat sequence)) ∷ ("bytes", num (nat (length frame))) ∷ []))
        (set_sequence r (sequence + 1) s)

  -- The loop over the frames: an error ends it.
  unfoldable pub send_frames : String → ℕ → List (List ℕ) → State → State
  unfolding send frame_sent
  send_frames id r [] s = s
  send_frames id r (frame ∷ frames) s =
      let (reply, s') = send (audio_out id (s.objects r).next_audio_out_sequence frame) s in
      elim reply [
        | accepted command_id ↦ send_frames id r frames (frame_sent id r frame s')
        | refused message ↦ record_error env message (in_call id "audio_out_failed") s'
      ]

  -- The body of `sendAudio` for a call that has not ended.
  unfoldable pub send_call_audio : String → ℕ → List ℕ → State → State
  unfolding send_frames
  send_call_audio id r audio s =
      let popped = pop_outbound_audio_frames (s.objects r).outbound_audio_remainder audio in
      send_frames id r popped.0 (set_remainder r popped.1 s)

  unfoldable pub send_known_audio : String → Option ℕ → List ℕ → State → State
  unfolding send_call_audio
  send_known_audio id none audio s = s
  send_known_audio id (some r) audio s =
      if is_ended (s.objects r).state then s else send_call_audio id r audio s

  -- sink.sendAudio
  unfoldable pub sink_audio : String → List ℕ → State → State
  unfolding send_known_audio
  sink_audio id audio s = send_known_audio id (map_get id s.calls) audio s

  unfoldable pub run_sink_call : String → SinkCall → State → State
  unfolding sink_audio send_audio_clear
  run_sink_call id (sink_send_audio audio) s = sink_audio id audio s
  run_sink_call id (sink_clear reason) s =
      send_audio_clear id (some (audio_clear_reason_from_value reason)) s
  run_sink_call id (sink_mark name) s =
      record_event env "audio.mark" (for_call id (("markName", str name) ∷ [])) s

  -- What a session does with its sink while one of its methods runs.
  unfoldable pub run_sink_calls : String → List SinkCall → State → State
  unfolding run_sink_call
  run_sink_calls id [] s = s
  run_sink_calls id (call ∷ calls) s = run_sink_calls id calls (run_sink_call id call s)
