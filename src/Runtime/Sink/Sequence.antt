-- ===== src/Runtime/Sink/Sequence.antt =====
-- plugin/src/runtime.ts, the audio sink: the numbers of the frames that go out.
use openclaw_sip_voice.Base.{ℕ, suc, ◌+◌, ◌≡◌, refl, ap, ◌∙◌, subst, String, List, [], ◌∷◌, arith}
use openclaw_sip_voice.Runtime.State.{
  Env, State, Command, audio_out, Effect, sent, Reply, accepted, refused,
}
use openclaw_sip_voice.Runtime.Records.{record_event, record_error, in_call}
use openclaw_sip_voice.Runtime.Sink.{send, frame_sent, send_frames}

-- The commands that were sent, each with its reply, the latest first.
abbrev pub answers_of : List Effect → List (Command × Reply)
answers_of [] = []
answers_of (sent command reply ∷ trace) = (command, reply) ∷ answers_of trace
answers_of (_ ∷ trace) = answers_of trace

abbrev pub push_answers : List (Command × Reply) → List (Command × Reply) → List (Command × Reply)
push_answers [] later = later
push_answers (answer ∷ answers) later = push_answers answers (answer ∷ later)

-- How frames go out from the number `n` on: each as the next command under the next number, as long as
-- each before it was accepted; nothing follows a refused one. `count` of them are accepted.
abbrev pub Ran : String → ℕ → List (List ℕ) → List (Command × Reply) → ℕ → Type 0
Ran id n [] answers count = (answers ≡ []) × (count ≡ 0)
Ran id n (frame ∷ frames) [] count = ⊥
Ran id n (frame ∷ frames) ((command, accepted command_id) ∷ answers) count =
    (command ≡ audio_out id n frame)
    × ((others : ℕ) × (count ≡ suc others) × Ran id (n + 1) frames answers others)
Ran id n (frame ∷ frames) ((command, refused message) ∷ answers) count =
    (command ≡ audio_out id n frame) × (answers ≡ []) × (count ≡ 0)

-- What was sent of the frames, with the replies, from the state `s` to the state `t`. The call counts
-- those that were accepted, and no other.
pub record Sent (id : String) (r : ℕ) (frames : List (List ℕ)) (s t : State) : Type 0 where
  pub answers : List (Command × Reply)
  pub traced : answers_of t.trace ≡ push_answers answers (answers_of s.trace)
  pub count : ℕ
  pub ran : Ran id (s.objects r).next_audio_out_sequence frames answers count
  pub counted :
      (t.objects r).next_audio_out_sequence ≡ (s.objects r).next_audio_out_sequence + count

module _ (env : Env) where
  frame_sent-next :
      (id : String) (r : ℕ) (frame : List ℕ) (s : State)
      → (((frame_sent env id r frame s).objects r).next_audio_out_sequence
          ≡ (s.objects r).next_audio_out_sequence + 1)
        × ((frame_sent env id r frame s).trace ≡ s.trace)
  unfolding frame_sent record_event
  frame_sent-next id r frame s = (ground arith, refl)

  abbrev replied : String → ℕ → List ℕ → Reply → State → State
  replied id r frame reply s = record s {
    trace = sent (audio_out id (s.objects r).next_audio_out_sequence frame) reply ∷ s.trace;
  }

  after_reply :
      (id : String) (r : ℕ) (frame : List ℕ) (frames : List (List ℕ)) (s : State) (reply : Reply)
      → ((u : State) → Sent id r frames u (send_frames env id r frames u))
      → Sent id r (frame ∷ frames) s (elim reply as (λ _. State) [
        | accepted command_id ↦
            send_frames env id r frames (frame_sent env id r frame (replied id r frame reply s))
        | refused message ↦
            record_error env message (in_call id "audio_out_failed") (replied id r frame reply s)
      ])
  unfolding record_error
  after_reply id r frame frames s (accepted command_id) rest =
      let s' = replied id r frame (accepted command_id) s in
      let one = frame_sent-next id r frame s' in
      let ih = rest (frame_sent env id r frame s') in
      let command = audio_out id (s.objects r).next_audio_out_sequence frame in
      record {
        answers = (command, accepted command_id) ∷ ih.answers;
        traced = ih.traced ∙ ap (λ trace. push_answers ih.answers (answers_of trace)) one.1;
        count = suc ih.count;
        ran =
            (refl, (ih.count, refl, subst (λ n. Ran id n frames ih.answers ih.count) one.0 ih.ran));
        counted = omega (arith, ih.counted, one.0);
      }
  after_reply id r frame frames s (refused message) rest = record {
    answers = (audio_out id (s.objects r).next_audio_out_sequence frame, refused message) ∷ [];
    traced = refl;
    count = 0;
    ran = (refl, refl, refl);
    counted = omega arith;
  }

  -- The sink sends the frames in order under consecutive numbers, one after the other as long as they
  -- are accepted: nothing is sent after the first that is refused. The call's next number rises by
  -- exactly the number of the accepted ones.
  pub send_frames-Sent :
      (id : String) (r : ℕ) (frames : List (List ℕ)) (s : State)
      → Sent id r frames s (send_frames env id r frames s)
  unfolding send_frames send
  send_frames-Sent id r [] s = record {
    answers = [];
    traced = refl;
    count = 0;
    ran = (refl, refl);
    counted = omega arith;
  }
  send_frames-Sent id r (frame ∷ frames) s =
      after_reply id r frame frames s
        (env.send s.trace (audio_out id (s.objects r).next_audio_out_sequence frame))
        (λ u. send_frames-Sent id r frames u)
