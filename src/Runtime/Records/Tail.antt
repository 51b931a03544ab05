-- ===== src/Runtime/Records/Tail.antt =====
-- plugin/src/runtime.ts: what `tail` shows of all that was ever recorded.
use openclaw_sip_voice.Base.{
  ℕ, zero, suc, ◌-◌, ◌≤◌, ◌≡◌, refl, sym, ap, ◌∙◌, inl, inr, List, [], ◌∷◌, ◌++◌, Option, none,
  some, arith, Bool-cases, ltb, length, drop, drop-drop, length-append, length-drop, append-nil,
  append_assoc, true, false,
}
use openclaw_sip_voice.Protocol.Value.{Number, nat, neg, frac}
use openclaw_sip_voice.Runtime.Records.{push_recent, limit_from_tail_request, last_records, tail_of}

module _ {ℓ} {A : Type ℓ} where
  -- Records that are pushed one after the other.
  abbrev pub push_all : List A → List A → List A
  push_all records [] = records
  push_all records (x ∷ xs) = push_all (push_recent records x) xs

  drop-append : (k : ℕ) (xs ys : List A) → k ≤ length xs → drop k xs ++ ys ≡ drop k (xs ++ ys)
  drop-append zero xs ys h = refl
  drop-append (suc k) [] ys h = absurd (omega arith)
  drop-append (suc k) (x ∷ xs) ys h = drop-append k xs ys (omega arith)

  -- A list that is short enough is its own end.
  last_records_short : (n : ℕ) (xs : List A) → length xs ≤ n → last_records n xs ≡ xs
  unfolding last_records
  last_records_short n xs h =
      let none_over : length xs - n ≡ 0 = omega arith in ap (λ k. drop k xs) none_over

  length-last_records : (n : ℕ) (xs : List A) → length (last_records n xs) ≤ n
  unfolding last_records
  length-last_records n xs = omega (arith, length-drop (length xs - n) xs)

  push_recent_lem :
      (records : List A) (x : A) → push_recent records x ≡ last_records 50 (records ++ x ∷ [])
  unfolding push_recent last_records
  push_recent_lem records x =
      let pushed = records ++ x ∷ [] in
      elim (Bool-cases (ltb 50 (length pushed))) [
        | inl over ↦ rw over
        | inr within ↦ rw within (sym (last_records_short 50 pushed (ground arith)))
      ]

  -- The last records of the last records, with what is behind them.
  last_records-append :
      (n m : ℕ) (xs ys : List A)
      → n ≤ m
      → last_records n (last_records m xs ++ ys) ≡ last_records n (xs ++ ys)
  unfolding last_records
  last_records-append n m xs ys h =
      let k = length xs - m in
      let joined = drop-append k xs ys (omega arith) in
      ap (λ zs. drop (length zs - n) zs) joined
      ∙ drop-drop (length (drop k (xs ++ ys)) - n) k (xs ++ ys)
      ∙ ap (λ i. drop i (xs ++ ys)) (omega (arith, length-drop k (xs ++ ys), length-append xs ys))

  last_records-last_records :
      (n m : ℕ) (xs : List A) → n ≤ m → last_records n (last_records m xs) ≡ last_records n xs
  last_records-last_records n m xs h =
      rw (← append-nil (last_records m xs))
        (last_records-append n m xs [] h ∙ ap (last_records n) (append-nil xs))

  push_all_lem :
      (records xs : List A)
      → length records ≤ 50
      → push_all records xs ≡ last_records 50 (records ++ xs)
  push_all_lem records [] h = rw (append-nil records) (sym (last_records_short 50 records h))
  push_all_lem records (x ∷ xs) h =
      let pushed = push_recent_lem records x in
      let short = length-last_records 50 (records ++ x ∷ []) in
      push_all_lem (push_recent records x) xs (rw pushed short)
      ∙ ap (λ zs. last_records 50 (zs ++ xs)) pushed
      ∙ last_records-append 50 50 (records ++ x ∷ []) xs (omega arith)
      ∙ ap (last_records 50) (append_assoc records (x ∷ []) xs)

tail_limit_le : (limit : Option Number) → limit_from_tail_request limit ≤ 50
unfolding limit_from_tail_request
tail_limit_le none = omega arith
tail_limit_le (some (nat n)) = omega arith
tail_limit_le (some (neg n)) = omega arith
tail_limit_le (some (frac false whole tag)) = omega arith
tail_limit_le (some (frac true whole tag)) = omega arith
tail_limit_le (some _) = omega arith

drop_all {ℓ} : {A : Type ℓ} (xs : List A) → drop (length xs) xs ≡ []
drop_all [] = refl
drop_all (x ∷ xs) = drop_all xs

tail_of_lem {ℓ} : {A : Type ℓ} (n : ℕ) (xs : List A) → tail_of n xs ≡ last_records n xs
unfolding tail_of last_records
tail_of_lem zero xs =
    let e : length xs ≡ length xs - 0 = omega arith in sym (drop_all xs) ∙ ap (λ k. drop k xs) e
tail_of_lem (suc n) xs = ground arith

-- However many records were pushed, `tail` shows the last of all of them, as many as the request
-- comes to, of which there are never more than the 50 that are kept.
pub tail_of-push_all {ℓ} :
    {A : Type ℓ} (limit : Option Number) (xs : List A)
    → let n = limit_from_tail_request limit in
      (tail_of n (push_all [] xs) ≡ last_records n xs) × (n ≤ 50)
tail_of-push_all limit xs =
    let n = limit_from_tail_request limit in
    let few = tail_limit_le limit in
    (
      tail_of_lem n (push_all [] xs)
          ∙ ap (last_records n) (push_all_lem [] xs (omega arith))
          ∙ last_records-last_records n 50 xs few,
      few,
    )
