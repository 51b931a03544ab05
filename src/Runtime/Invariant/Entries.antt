-- ===== src/Runtime/Invariant/Entries.antt =====
-- plugin/src/runtime.ts: the invariant of the call manager, and the elementary changes that keep it.
use openclaw_sip_voice.Base.{
  ℕ, suc, ◌+◌, ◌≤◌, ◌<◌, ◌≡◌, refl, sym, ap, ◌∙◌, ◌≢◌, inl, inr, true, false, String, List, [], ◌∷◌,
  arith, eq_iff, Bool-cases, length, All, map_delete, length-map_set, length-map_delete,
  All-map_delete, All-map_set, ◌==◌,
}
use openclaw_sip_voice.Runtime.State.{
  Env, State, ManagedCall, CallState, is_ended, update, modify, set_state,
}
use openclaw_sip_voice.Runtime.Calls.{
  active_count, reserved_call_count, max_calls, can_accept_another_call, add_call,
}
use openclaw_sip_voice.Runtime.Invariant.Quiet.{Quiet}

-- An entry of the map names a call that was made, under its own id, and that has not ended.
abbrev pub IsOpen : (ℕ → ManagedCall) → ℕ → String × ℕ → Type 0
IsOpen objects fresh (id, r) =
    ((objects r).call_id ≡ id) × (is_ended (objects r).state ≡ false) × (r < fresh)

-- The calls in the map and the calls that are being dialed are within the limit together.
pub record Inv (env : Env) (s : State) : Type 0 where
  pub open_calls : All (IsOpen s.objects s.next_object) s.calls
  pub fits : length s.calls + length s.pending_outbound_calls ≤ max_calls env

IsOpen-update_ne :
    (objects : ℕ → ManagedCall) (fresh r : ℕ) (call : ManagedCall) (e : String × ℕ)
    → r ≢ e.1
    → IsOpen objects fresh e
    → IsOpen (update objects r call) fresh e
IsOpen-update_ne objects fresh r call e other o = (ground arith, ground arith, o.2)

IsOpen-update_eq :
    (objects : ℕ → ManagedCall) (r : ℕ) (call : ManagedCall) (id : String)
    → call.call_id ≡ id
    → is_ended call.state ≡ false
    → IsOpen (update objects r call) (suc r) (id, r)
IsOpen-update_eq objects r call id named alive = (ground arith, ground arith, omega arith)

IsOpen-add :
    (objects : ℕ → ManagedCall) (r : ℕ) (call : ManagedCall) (e : String × ℕ)
    → IsOpen objects r e
    → IsOpen (update objects r call) (suc r) e
IsOpen-add objects r call e o = (ground (arith, o), ground (arith, o), omega (arith, o.2))

All-implies {ℓ} :
    {A : Type ℓ} {P Q : A → Type 0} (xs : List A) → ((x : A) → P x → Q x) → All P xs → All Q xs
All-implies [] f h = tt
All-implies (x ∷ xs) f h = (f x h.0, All-implies xs f h.1)

-- The entries that a deletion leaves have another key.
All-map_delete_ne {ℓ} :
    {V : Type ℓ} (key : String) (m : List (String × V)) → All (λ e. e.0 ≢ key) (map_delete key m)
unfolding map_delete
All-map_delete_ne key [] = tt
All-map_delete_ne key ((k, v) ∷ m) = elim (Bool-cases (k == key)) [
  | inl same ↦ rw same (All-map_delete_ne key m)
  | inr other ↦ rw other ((λ e. cc ((eq_iff k key).1 e)), All-map_delete_ne key m)
]

All-both {ℓ} :
    {A : Type ℓ} (P Q : A → Type 0) (xs : List A) → All P xs → All Q xs → All (λ x. P x × Q x) xs
All-both P Q [] h k = tt
All-both P Q (x ∷ xs) h k = ((h.0, k.0), All-both P Q xs h.1 k.1)

active_count-length :
    (objects : ℕ → ManagedCall) (fresh : ℕ) (calls : List (String × ℕ))
    → All (IsOpen objects fresh) calls
    → active_count objects calls ≡ length calls
unfolding active_count
active_count-length objects fresh [] h = refl
active_count-length objects fresh ((id, r) ∷ calls) h =
    ground (arith, active_count-length objects fresh calls h.1)

module _ (env : Env) where
  pub Inv-Quiet : {s t : State} → Quiet s t → Inv env s → Inv env t
  Inv-Quiet {s} {t} q v = record {
    open_calls = rw q.calls (
        All-implies s.calls
          (λ e h. (q.ids e.1 ∙ h.0, ap is_ended (q.states e.1) ∙ h.1, omega (arith, q.fresh, h.2)))
          v.open_calls);
    fits = rw (q.calls, q.pending) v.fits;
  }

  -- Under the invariant, the count of active calls is that of the entries.
  pub reserved_call_count-Inv :
      (s : State)
      → Inv env s
      → reserved_call_count s ≡ length s.calls + length s.pending_outbound_calls
  unfolding reserved_call_count
  reserved_call_count-Inv s v =
      ap (λ n. n + length s.pending_outbound_calls)
        (active_count-length s.objects s.next_object s.calls v.open_calls)

  pub room :
      (s : State)
      → Inv env s
      → can_accept_another_call env s ≡ true
      → length s.calls + length s.pending_outbound_calls < max_calls env
  unfolding can_accept_another_call
  room s v h = ground (arith, reserved_call_count-Inv s v)

  -- A call moves to another state that is not the end.
  pub Inv-set_state :
      (r : ℕ) (st : CallState) (s : State)
      → is_ended st ≡ false
      → Inv env s
      → Inv env (set_state r st s)
  Inv-set_state r st s h v = record {
    open_calls = All-implies s.calls (λ e o. (ground arith, ground arith, o.2)) v.open_calls;
    fits = v.fits;
  }

  -- An entry is deleted, and the object that has its id may change.
  pub Inv-remove :
      (r : ℕ) (f : ManagedCall → ManagedCall) (id : String) (s : State)
      → (s.objects r).call_id ≡ id
      → Inv env s
      → Inv env (record (modify r f s) { calls = map_delete id s.calls })
  Inv-remove r f id s here v = record {
    open_calls =
        All-implies (map_delete id s.calls)
          (λ e h.
            IsOpen-update_ne s.objects s.next_object r (f (s.objects r)) e
              (λ same. h.1 (sym h.0.0 ∙ ap (λ q. (s.objects q).call_id) (sym same) ∙ here)) h.0)
          (All-both _ _ (map_delete id s.calls) (All-map_delete _ id s.calls v.open_calls)
            (All-map_delete_ne id s.calls));
    fits = omega (arith, v.fits, length-map_delete id s.calls);
  }

  pub Inv-delete :
      (id : String) (s : State) → Inv env s → Inv env (record s { calls = map_delete id s.calls })
  Inv-delete id s v = record {
    open_calls = All-map_delete _ id s.calls v.open_calls;
    fits = omega (arith, v.fits, length-map_delete id s.calls);
  }

  -- A new call, if there is room.
  pub Inv-add_call :
      (id : String) (call : ManagedCall) (s : State)
      → call.call_id ≡ id
      → is_ended call.state ≡ false
      → length s.calls + length s.pending_outbound_calls < max_calls env
      → Inv env s
      → Inv env (add_call id call s)
  unfolding add_call
  Inv-add_call id call s named alive h v = record {
    open_calls =
        All-map_set _ id s.next_object s.calls
          (IsOpen-update_eq s.objects s.next_object call id named alive)
          (All-implies s.calls (λ e o. IsOpen-add s.objects s.next_object call e o) v.open_calls);
    fits = omega (arith, length-map_set id s.next_object s.calls);
  }
