-- ===== src/Runtime/Audio.antt =====
-- plugin/src/runtime.ts, popOutboundAudioFrames: the audio of the realtime session is cut into
-- frames of 160 bytes, and what is left waits for the next chunk. A Buffer is the list of its bytes.
pub mod Framing
use openclaw_sip_voice.Base.{
  ℕ, zero, suc, ◌+◌, ◌-◌, List, [], ◌∷◌, ◌++◌, leb, ltb, is_empty, if◌then◌else◌, length, take,
  drop,
}

abbrev pub audio_frame_bytes : ℕ
audio_frame_bytes = 160

-- The `while` loop: the frames so far, and the offset. The fuel is a bound on its rounds.
unfoldable pub frames_loop : ℕ → List ℕ → ℕ → List (List ℕ) → List (List ℕ) × ℕ
frames_loop zero pending offset frames = (frames, offset)
frames_loop (suc fuel) pending offset frames =
    let more =
      frames_loop fuel pending (offset + audio_frame_bytes)
        (frames ++ take audio_frame_bytes (drop offset pending) ∷ []) in
    if leb audio_frame_bytes (length pending - offset) then more else (frames, offset)

-- Joining the remainder to new audio.
unfoldable pub join_pending : List ℕ → List ℕ → List ℕ
join_pending remainder audio = if is_empty remainder then audio else remainder ++ audio

-- The new remainder, from where the loop stopped.
unfoldable pub rest_from : List ℕ → ℕ → List ℕ
rest_from pending offset = if ltb offset (length pending) then drop offset pending else []

-- The frames to send, and the call's new `outboundAudioRemainder`.
unfoldable pub pop_outbound_audio_frames : List ℕ → List ℕ → List (List ℕ) × List ℕ
pop_outbound_audio_frames remainder audio =
    let pending = join_pending remainder audio in
    let popped = frames_loop (length pending + 1) pending 0 [] in
    if is_empty audio then ([], remainder) else (popped.0, rest_from pending popped.1)

-- Every chunk of audio that the realtime session sends, in order: all the frames that go out, and
-- the remainder.
unfoldable pub pop_chunks : List ℕ → List (List ℕ) → List (List ℕ) × List ℕ
pop_chunks remainder [] = ([], remainder)
pop_chunks remainder (chunk ∷ chunks) =
    let now = pop_outbound_audio_frames remainder chunk in
    let later = pop_chunks now.1 chunks in (now.0 ++ later.0, later.1)
