-- ===== src/Runtime/Audio/Framing.antt =====
-- plugin/src/runtime.ts, popOutboundAudioFrames: the frames are the audio, cut.
use openclaw_sip_voice.Base.{
  ℕ, zero, suc, ◌+◌, ◌-◌, ◌≤◌, ◌<◌, ◌≡◌, refl, sym, ap, ◌∙◌, inl, inr, List, [], ◌∷◌, ◌++◌, arith,
  leb, leb→le, Bool-cases, length, take, drop, drop-drop, drop-nil, ltb, append_inj, All,
  All-append, flatten-append, take-append-drop, length-take, length-drop, length-append, append-nil,
  append_assoc, flatten,
}
use openclaw_sip_voice.Runtime.Audio.{
  frames_loop, pop_chunks, join_pending, rest_from, pop_outbound_audio_frames,
}

abbrev pub IsFrame : List ℕ → Type 0
IsFrame frame = length frame ≡ 160

-- What the loop has done when it stops at `offset` with `frames`, of the audio `all`.
record Cut (pending all : List ℕ) (frames : List (List ℕ)) (offset : ℕ) : Type 0 where
  kept : flatten frames ++ drop offset pending ≡ all
  whole : All IsFrame frames
  inside : offset ≤ length pending

Cut-step :
    (pending all : List ℕ) (frames : List (List ℕ)) (offset : ℕ)
    → 160 ≤ length pending - offset
    → Cut pending all frames offset
    → Cut pending all (frames ++ take 160 (drop offset pending) ∷ []) (offset + 160)
Cut-step pending all frames offset h c = record {
  kept =
      simp (flatten-append, append_assoc, append-nil, ← drop-drop 160 offset pending)
        (rw (take-append-drop 160 (drop offset pending)) c.kept);
  whole =
      All-append IsFrame frames _ c.whole
        (omega (arith, length-take 160 (drop offset pending), length-drop offset pending), tt);
  inside = omega arith;
}

frames_loop-Cut :
    (fuel : ℕ) (pending all : List ℕ) (frames : List (List ℕ)) (offset : ℕ)
    → length pending - offset < fuel
    → Cut pending all frames offset
    → let r = frames_loop fuel pending offset frames in
      Cut pending all r.0 r.1 × (length pending - r.1 < 160)
unfolding frames_loop
frames_loop-Cut zero pending all frames offset h c = absurd (omega arith)
frames_loop-Cut (suc fuel) pending all frames offset h c =
    elim (Bool-cases (leb 160 (length pending - offset))) [
      | inl more ↦ rw more (
          frames_loop-Cut fuel pending all _ (offset + 160) (ground arith)
            (Cut-step pending all frames offset (leb→le _ _ more) c))
      | inr done ↦ rw done (c, ground arith)
    ]

join_pending_lem : (remainder audio : List ℕ) → join_pending remainder audio ≡ remainder ++ audio
unfolding join_pending
join_pending_lem [] audio = refl
join_pending_lem (b ∷ remainder) audio = refl

drop_all : (xs : List ℕ) (n : ℕ) → length xs ≤ n → drop n xs ≡ []
drop_all [] n h = drop-nil n
drop_all (x ∷ xs) zero h = absurd (omega arith)
drop_all (x ∷ xs) (suc n) h = drop_all xs n (omega arith)

rest_from_lem : (pending : List ℕ) (offset : ℕ) → rest_from pending offset ≡ drop offset pending
unfolding rest_from
rest_from_lem pending offset = elim (Bool-cases (ltb offset (length pending))) [
  | inl some_left ↦ rw some_left
  | inr none_left ↦ rw none_left (sym (drop_all pending offset (ground arith)))
]

-- What one call has done: the frames and the new remainder are the old remainder and the audio.
pub record Framed (all : List ℕ) (frames : List (List ℕ)) (rest : List ℕ) : Type 0 where
  pub kept : flatten frames ++ rest ≡ all
  pub whole : All IsFrame frames
  pub short : length rest < 160

Framed-frames_loop :
    (pending : List ℕ)
    → let r = frames_loop (length pending + 1) pending 0 [] in
      Framed pending r.0 (rest_from pending r.1)
Framed-frames_loop pending =
    let (cut, short) =
      frames_loop-Cut (length pending + 1) pending pending [] 0 (omega arith)
        (record { kept = refl; whole = tt; inside = omega arith }) in
    rw rest_from_lem (record {
      kept = cut.kept;
      whole = cut.whole;
      short = omega (arith, length-drop (frames_loop (length pending + 1) pending 0 []).1 pending);
    })

-- Nothing is lost, added or reordered: the frames with the new remainder are the old remainder with
-- the new audio. Each frame has 160 bytes, and if less than a frame waited before, less than a
-- frame is left to wait.
pub pop_outbound_audio_frames-Framed :
    (remainder audio : List ℕ)
    → length remainder < 160
    → let r = pop_outbound_audio_frames remainder audio in Framed (remainder ++ audio) r.0 r.1
unfolding pop_outbound_audio_frames
pop_outbound_audio_frames-Framed remainder [] h = record {
  kept = sym (append-nil remainder);
  whole = tt;
  short = h;
}
pop_outbound_audio_frames-Framed remainder (b ∷ audio) h =
    rw (← join_pending_lem remainder (b ∷ audio))
      (Framed-frames_loop (join_pending remainder (b ∷ audio)))

-- There is one way to cut audio into frames.
Framed-unique :
    {all : List ℕ} (fs gs : List (List ℕ)) {r s : List ℕ}
    → Framed all fs r
    → Framed all gs s
    → (fs ≡ gs) × (r ≡ s)
Framed-unique [] [] a b = (refl, a.kept ∙ sym b.kept)
Framed-unique [] (g ∷ gs) {r} {s} a b = absurd (
    omega (
      arith,
      ap length (a.kept ∙ sym b.kept),
      length-append g (flatten gs),
      length-append (g ++ flatten gs) s,
      b.whole.0,
      a.short,
    ))
Framed-unique (f ∷ fs) [] {r} {s} a b = absurd (
    omega (
      arith,
      ap length (a.kept ∙ sym b.kept),
      length-append f (flatten fs),
      length-append (f ++ flatten fs) r,
      a.whole.0,
      b.short,
    ))
Framed-unique (f ∷ fs) (g ∷ gs) {r} {s} a b =
    let e =
      sym (append_assoc f (flatten fs) r) ∙ a.kept ∙ sym b.kept ∙ append_assoc g (flatten gs) s in
    let t = append_inj f g (a.whole.0 ∙ sym b.whole.0) e in
    let u =
      Framed-unique fs gs (record { kept = refl; whole = a.whole.1; short = a.short })
        (record { kept = sym t.1; whole = b.whole.1; short = b.short }) in
    (cc (t.0, u.0), u.1)

pop_chunks-Framed :
    (remainder : List ℕ) (chunks : List (List ℕ))
    → length remainder < 160
    → let r = pop_chunks remainder chunks in Framed (remainder ++ flatten chunks) r.0 r.1
unfolding pop_chunks
pop_chunks-Framed remainder [] h = record {
  kept = sym (append-nil remainder);
  whole = tt;
  short = h;
}
pop_chunks-Framed remainder (chunk ∷ chunks) h =
    let now = pop_outbound_audio_frames remainder chunk in
    let first = pop_outbound_audio_frames-Framed remainder chunk h in
    let rest = pop_chunks-Framed now.1 chunks first.short in
    record {
      kept =
          simp (flatten-append, append_assoc, rest.kept)
            (sym (append_assoc (flatten now.0) now.1 (flatten chunks))
              ∙ ap (λ xs. xs ++ flatten chunks) first.kept
              ∙ append_assoc remainder chunk (flatten chunks));
      whole = All-append IsFrame now.0 _ first.whole rest.whole;
      short = rest.short;
    }

-- How the audio was cut into chunks does not matter: the same bytes give the same frames, in the same
-- order, and leave the same bytes to wait, if less than a frame waited at first.
pub pop_chunks-regroup :
    (remainder : List ℕ) (chunks other : List (List ℕ))
    → length remainder < 160
    → flatten chunks ≡ flatten other
    → pop_chunks remainder chunks ≡ pop_chunks remainder other
pop_chunks-regroup remainder chunks other h e =
    let t =
      Framed-unique _ _ (pop_chunks-Framed remainder chunks h)
        (rw e (pop_chunks-Framed remainder other h)) in
    λ i. (t.0 i, t.1 i)
