-- ===== src/Fixtures/Payload.antt =====
-- protocol/validator.mjs, base64AudioPayload, beside the one of plugin/src/protocol.ts.
use openclaw_sip_voice.Base.{
  ℕ, suc, ◌+◌, ◌*◌, ◌/◌, ◌≡◌, refl, ◌⊎◌, inl, inr, Bool, true, ◌&&◌, ◌||◌, List, [], ◌∷◌, arith,
  eqb,
}
use openclaw_sip_voice.Protocol.Value.{str}
use openclaw_sip_voice.Protocol.Pattern.{
  codes, unit_count, base64_re, is_base64_char, is_alnum, is_lower, is_upper, is_digit, data_count,
  decoded_length,
}
use openclaw_sip_voice.Protocol.Validators.{base64_audio_payload}
use openclaw_sip_voice.Fixtures.Alike.{Alike}
use openclaw_sip_voice.Fixtures.Parts.{audio_payload}

-- The groups of four characters, and the padding that the last of them has.
record Shape (cs : List ℕ) : Type 0 where
  groups : ℕ
  padding : ℕ
  count : unit_count cs ≡ 4 * groups
  kept : data_count cs + padding ≡ 4 * groups
  at_most_two : padding ≡ 0 ⊎ (padding ≡ 1 ⊎ padding ≡ 2)

-- A character of the alphabet is one code unit, and no padding.
plain :
    (c : ℕ) (cs : List ℕ)
    → is_base64_char c ≡ true
    → (unit_count (c ∷ cs) ≡ 1 + unit_count cs) × (data_count (c ∷ cs) ≡ 1 + data_count cs)
unfolding is_base64_char is_alnum is_lower is_upper is_digit data_count
plain c cs h = ground arith

pad :
    (c : ℕ) (cs : List ℕ)
    → eqb c b'=' ≡ true
    → (unit_count (c ∷ cs) ≡ 1 + unit_count cs) × (data_count (c ∷ cs) ≡ 0)
unfolding data_count
pad c cs h = ground arith

module _ (a b c d : ℕ) where
  -- Four characters of the alphabet before more.
  Shape-group :
      (cs : List ℕ)
      → is_base64_char a ≡ true
      → is_base64_char b ≡ true
      → is_base64_char c ≡ true
      → is_base64_char d ≡ true
      → Shape cs
      → Shape (a ∷ b ∷ c ∷ d ∷ cs)
  Shape-group cs ha hb hc hd s =
      let (ua, ka) = plain a (b ∷ c ∷ d ∷ cs) ha in
      let (ub, kb) = plain b (c ∷ d ∷ cs) hb in
      let (uc, kc) = plain c (d ∷ cs) hc in
      let (ud, kd) = plain d cs hd in
      record {
        groups = suc s.groups;
        padding = s.padding;
        count = omega (arith, s.count);
        kept = omega (arith, s.kept);
        at_most_two = s.at_most_two;
      }

  one_pad :
      is_base64_char a ≡ true
      → is_base64_char b ≡ true
      → is_base64_char c ≡ true
      → eqb d b'=' ≡ true
      → Shape (a ∷ b ∷ c ∷ d ∷ [])
  one_pad ha hb hc hd =
      let (ua, ka) = plain a (b ∷ c ∷ d ∷ []) ha in
      let (ub, kb) = plain b (c ∷ d ∷ []) hb in
      let (uc, kc) = plain c (d ∷ []) hc in
      let (ud, kd) = pad d [] hd in
      record {
        groups = 1;
        padding = 1;
        count = omega arith;
        kept = omega arith;
        at_most_two = inr (inl refl);
      }

  two_pads :
      is_base64_char a ≡ true
      → is_base64_char b ≡ true
      → eqb c b'=' ≡ true
      → eqb d b'=' ≡ true
      → Shape (a ∷ b ∷ c ∷ d ∷ [])
  two_pads ha hb hc hd =
      let (ua, ka) = plain a (b ∷ c ∷ d ∷ []) ha in
      let (ub, kb) = plain b (c ∷ d ∷ []) hb in
      let (uc, kc) = pad c (d ∷ []) hc in
      let (ud, kd) = pad d [] hd in
      record {
        groups = 1;
        padding = 2;
        count = omega arith;
        kept = omega arith;
        at_most_two = inr (inr refl);
      }

nothing : Shape []
unfolding data_count
nothing = record { groups = 0; padding = 0; count = refl; kept = refl; at_most_two = inl refl }

-- What the test of a last group of four finds.
last_cases :
    (pa pb pc pd qc qd : Bool)
    → (pa && pb && (pc && (pd || qd) || qc && qd)) ≡ true
    → (pa ≡ true)
      × (pb ≡ true)
      × (((pc ≡ true) × ((pd ≡ true) ⊎ (qd ≡ true))) ⊎ ((qc ≡ true) × (qd ≡ true)))
last_cases pa pb pc pd qc qd h = ground arith

more_cases :
    (pa pb pc pd rest : Bool)
    → (pa && pb && pc && pd && rest) ≡ true
    → (pa ≡ true) × (pb ≡ true) × (pc ≡ true) × (pd ≡ true) × (rest ≡ true)
more_cases pa pb pc pd rest h = ground arith

Shape-base64_re : (cs : List ℕ) → base64_re cs ≡ true → Shape cs
unfolding base64_re
Shape-base64_re [] h = nothing
Shape-base64_re (a ∷ b ∷ c ∷ d ∷ []) h =
    let (ha, hb, rest) =
      last_cases (is_base64_char a) (is_base64_char b) (is_base64_char c) (is_base64_char d)
        (eqb c b'=') (eqb d b'=') h in
    elim rest [
      | inl (hc, inl hd) ↦ Shape-group a b c d [] ha hb hc hd nothing
      | inl (hc, inr hd) ↦ one_pad a b c d ha hb hc hd
      | inr (hc, hd) ↦ two_pads a b c d ha hb hc hd
    ]
Shape-base64_re (a ∷ b ∷ c ∷ d ∷ e ∷ cs) h =
    let (ha, hb, hc, hd, rest) =
      more_cases (is_base64_char a) (is_base64_char b) (is_base64_char c) (is_base64_char d)
        (base64_re (e ∷ cs)) h in
    Shape-group a b c d (e ∷ cs) ha hb hc hd (Shape-base64_re (e ∷ cs) rest)
Shape-base64_re (a ∷ []) h = absurd (cc (h))
Shape-base64_re (a ∷ b ∷ []) h = absurd (cc (h))
Shape-base64_re (a ∷ b ∷ c ∷ []) h = absurd (cc (h))

-- Strict base64 of 160 bytes has 216 characters.
length_of_frame :
    (cs : List ℕ) → base64_re cs ≡ true → data_count cs * 6 / 8 ≡ 160 → unit_count cs ≡ 216
length_of_frame cs h e = by_shape (Shape-base64_re cs h)
  where
    by_shape : Shape cs → unit_count cs ≡ 216
    by_shape s = omega (arith, s.count, s.kept, s.at_most_two, e)

-- The test of the length that only the plugin makes changes nothing.
pub audio_payload-Alike : Alike base64_audio_payload audio_payload
unfolding base64_audio_payload audio_payload decoded_length
audio_payload-Alike (str s) at = (ground arith, ground (arith, length_of_frame (codes s)))
audio_payload-Alike _ at = (λ e. absurd (cc (e)), λ e. absurd (cc (e)))
