-- ===== src/Tests/Calls.antt =====
-- plugin/src/runtime.ts on concrete histories and concrete audio.
use openclaw_sip_voice.Base.{ℕ, ◌+◌, ◌≤◌, ◌≡◌, refl, List, [], ◌∷◌, ◌++◌, none, length, arith}
use openclaw_sip_voice.Runtime.Audio.{
  pop_outbound_audio_frames, pop_chunks, join_pending, frames_loop, rest_from,
}
use openclaw_sip_voice.Runtime.Audio.Framing.{
  Framed, pop_outbound_audio_frames-Framed, pop_chunks-regroup,
}
use openclaw_sip_voice.Runtime.State.{State}
use openclaw_sip_voice.Runtime.Calls.{reserved_call_count, max_calls}
use openclaw_sip_voice.Runtime.Api.{call_start, handle_bridge_event, call}
use openclaw_sip_voice.Runtime.Start.{initial, here, next, bridge_event, called}
use openclaw_sip_voice.Tests.Surroundings.{calm, alice, connected_bridge, ringing_call}
use openclaw_sip_voice.Runtime.Invariant.History.{Reach-reserved_call_count-le}

-- A call comes in, and then one is asked for, beyond the limit.
abbrev after_two : State
after_two =
    (call calm alice none
      (handle_bridge_event calm (call_start ringing_call) (initial connected_bridge))).1

Reach-reserved_call_count-le_example :
    (reserved_call_count after_two ≤ max_calls calm)
    × (reserved_call_count after_two
        ≡ length after_two.calls + length after_two.pending_outbound_calls)
unfolding initial
Reach-reserved_call_count-le_example =
    Reach-reserved_call_count-le calm connected_bridge after_two
      (next (next here (bridge_event (call_start ringing_call) refl refl)) (called alice none))

abbrev ten : List ℕ
ten = 0 ∷ 1 ∷ 2 ∷ 3 ∷ 4 ∷ 5 ∷ 6 ∷ 7 ∷ 8 ∷ 9 ∷ []

abbrev ninety : List ℕ
ninety = ten ++ ten ++ ten ++ ten ++ ten ++ ten ++ ten ++ ten ++ ten

pop_tests :
    ((pop_chunks [] (ninety ∷ ninety ∷ [])).0
      ≡ (ninety ++ ten ++ ten ++ ten ++ ten ++ ten ++ ten ++ ten) ∷ [])
    × ((pop_chunks [] (ninety ∷ ninety ∷ [])).1 ≡ ten ++ ten)
unfolding pop_chunks pop_outbound_audio_frames join_pending frames_loop rest_from
pop_tests = (refl, refl)

pop_outbound_audio_frames-Framed_example :
    Framed
      (ninety ++ ninety)
      (pop_outbound_audio_frames ninety ninety).0
      (pop_outbound_audio_frames ninety ninety).1
pop_outbound_audio_frames-Framed_example =
    pop_outbound_audio_frames-Framed ninety ninety (omega arith)

pop_chunks-regroup_example :
    pop_chunks ten (ninety ∷ ten ∷ ninety ∷ []) ≡ pop_chunks ten ((ninety ++ ten) ∷ ninety ∷ [])
pop_chunks-regroup_example =
    pop_chunks-regroup ten (ninety ∷ ten ∷ ninety ∷ []) ((ninety ++ ten) ∷ ninety ∷ [])
      (omega arith) refl
