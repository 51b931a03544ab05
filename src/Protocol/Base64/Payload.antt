-- ===== src/Protocol/Base64/Payload.antt =====
-- plugin/src/protocol.ts, base64AudioPayload on what `toString("base64")` makes of bytes.
use Prim.Native.Char.{code}
use openclaw_sip_voice.Base.{
  if◌then◌else◌, false, ℕ, zero, suc, ◌+◌, ◌*◌, ◌/◌, ◌%◌, ◌<◌, ◌≡◌, refl, ◌↔◌, Bool, true, not,
  ◌&&◌, List, [], ◌∷◌, arith, ltb, eqb, length, All,
}
use openclaw_sip_voice.Protocol.Value.{str, Place}
use openclaw_sip_voice.Protocol.Pattern.{
  codes, unit_count, is_base64_char, is_alnum, is_lower, is_upper, is_digit, base64_re, data_count,
  decoded_length,
}
use openclaw_sip_voice.Protocol.Validators.{base64_audio_payload}
use openclaw_sip_voice.Protocol.Base64.{sextet, base64_encode}

abbrev pub AreBytes : List ℕ → Type 0
AreBytes = All (λ b. b < 256)

-- Every number under `top` passes the test.
passes : (ℕ → Bool) → ℕ → Bool
passes test zero = true
passes test (suc top) = if test top then passes test top else false

test_of_passes : (test : ℕ → Bool) (top k : ℕ) → k < top → passes test top ≡ true → test k ≡ true
unfolding passes
test_of_passes test zero k under h = absurd (omega arith)
test_of_passes test (suc top) k under h = ground (arith, test_of_passes test top k)

-- A character of the alphabet is one code unit, is matched by the class of the pattern, and is no
-- padding.
abbrev is_data : ℕ → Bool
is_data c = ltb c 0x10000 && is_base64_char c && not (eqb c b'=')

sextet_table : passes (λ n. is_data (code (sextet n))) 64 ≡ true
unfolding passes sextet is_base64_char is_alnum is_lower is_upper is_digit
sextet_table = refl

is_data-sextet : (n : ℕ) → n < 64 → is_data (code (sextet n)) ≡ true
is_data-sextet n h = test_of_passes (λ k. is_data (code (sextet k))) 64 n h sextet_table

unit_count-cons : (c : ℕ) (cs : List ℕ) → is_data c ≡ true → unit_count (c ∷ cs) ≡ 1 + unit_count cs
unit_count-cons c cs h = ground arith

data_count-cons : (c : ℕ) (cs : List ℕ) → is_data c ≡ true → data_count (c ∷ cs) ≡ 1 + data_count cs
unfolding data_count
data_count-cons c cs h = ground arith

module _ (a b c d : ℕ) (cs : List ℕ) (ha : is_data a ≡ true) (hb : is_data b ≡ true)
    (hc : is_data c ≡ true) (hd : is_data d ≡ true) where
  base64_re-group : base64_re cs ≡ true → base64_re (a ∷ b ∷ c ∷ d ∷ cs) ≡ true
  unfolding base64_re
  base64_re-group = by_rest cs
    where
      by_rest : (rest : List ℕ) → base64_re rest ≡ true → base64_re (a ∷ b ∷ c ∷ d ∷ rest) ≡ true
      by_rest [] h = ground arith
      by_rest (x ∷ rest) h = ground arith

  unit_count-group : unit_count (a ∷ b ∷ c ∷ d ∷ cs) ≡ 4 + unit_count cs
  unit_count-group = omega (
    arith,
    unit_count-cons a (b ∷ c ∷ d ∷ cs) ha,
    unit_count-cons b (c ∷ d ∷ cs) hb,
    unit_count-cons c (d ∷ cs) hc,
    unit_count-cons d cs hd,
  )

  data_count-group : data_count (a ∷ b ∷ c ∷ d ∷ cs) ≡ 4 + data_count cs
  data_count-group = omega (
    arith,
    data_count-cons a (b ∷ c ∷ d ∷ cs) ha,
    data_count-cons b (c ∷ d ∷ cs) hb,
    data_count-cons c (d ∷ cs) hc,
    data_count-cons d cs hd,
  )

-- What holds of the characters of an encoded text.
record Encodes (bs : List ℕ) (cs : List ℕ) : Type 0 where
  strict : base64_re cs ≡ true
  chars : unit_count cs ≡ 4 * ((length bs + 2) / 3)
  decoded : data_count cs * 6 / 8 ≡ length bs

base64_encode-Encodes : (bs : List ℕ) → AreBytes bs → Encodes bs (codes (base64_encode bs))
unfolding base64_encode data_count base64_re
base64_encode-Encodes [] h = record { strict = refl; chars = refl; decoded = refl }
base64_encode-Encodes (a ∷ []) h =
    let pa = is_data-sextet (a / 4) (omega arith) in
    let pb = is_data-sextet (a % 4 * 16) (omega arith) in
    record { strict = ground arith; chars = ground arith; decoded = ground arith }
base64_encode-Encodes (a ∷ b ∷ []) h =
    let pa = is_data-sextet (a / 4) (omega arith) in
    let pb = is_data-sextet (a % 4 * 16 + b / 16) (omega arith) in
    let pc = is_data-sextet (b % 16 * 4) (omega arith) in
    record { strict = ground arith; chars = ground arith; decoded = ground arith }
base64_encode-Encodes (a ∷ b ∷ c ∷ bs) (ha, (hb, (hc, h))) =
    let ih = base64_encode-Encodes bs h in
    let pa = is_data-sextet (a / 4) (omega arith) in
    let pb = is_data-sextet (a % 4 * 16 + b / 16) (omega arith) in
    let pc = is_data-sextet (b % 16 * 4 + c / 64) (omega arith) in
    let pd = is_data-sextet (c % 64) (omega arith) in
    record {
      strict = base64_re-group _ _ _ _ _ pa pb pc pd ih.strict;
      chars =
          omega (arith, ih.chars, unit_count-group _ _ _ _ (codes (base64_encode bs)) pa pb pc pd);
      decoded =
          omega
            (arith, ih.decoded, data_count-group _ _ _ _ (codes (base64_encode bs)) pa pb pc pd);
    }

-- The encoded bytes are a payload exactly if there are 160 of them.
pub base64_audio_payload-base64_encode :
    (bs : List ℕ) (at : Place)
    → AreBytes bs
    → (base64_audio_payload (str (base64_encode bs)) at ≡ []) ↔ (length bs ≡ 160)
unfolding base64_audio_payload decoded_length
base64_audio_payload-base64_encode bs at h =
    let e = base64_encode-Encodes bs h in
    (
      λ k. ground (arith, e.strict, e.chars, e.decoded),
      λ k. ground (arith, e.strict, e.chars, e.decoded),
    )
