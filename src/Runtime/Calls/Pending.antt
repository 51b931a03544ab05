-- ===== src/Runtime/Calls/Pending.antt =====
-- plugin/src/runtime.ts, handleCallEnd: the pending calls that the end of an unknown call takes out.
use openclaw_sip_voice.Base.{
  ℕ, ◌≡◌, refl, ap, inl, inr, true, false, String, List, [], ◌∷◌, arith, ◌==◌, eq_iff, Bool-cases,
  All,
}
use openclaw_sip_voice.Protocol.Pattern.{
  codes, call_id_re, command_id_re, is_run, strip_prefix, is_id_char,
}
use openclaw_sip_voice.Runtime.State.{Env, PendingOutboundCall}
use openclaw_sip_voice.Runtime.Calls.{drop_pending_commands}

prefixes_apart :
    (cs : List ℕ)
    → is_run is_id_char 6 96 (strip_prefix (codes "call_") cs) ≡ true
    → is_run is_id_char 6 96 (strip_prefix (codes "cmd_") cs) ≡ false
unfolding is_run strip_prefix
prefixes_apart [] h = refl
prefixes_apart (a ∷ []) h = ground arith
prefixes_apart (a ∷ b ∷ cs) h = ground arith

-- No text is the id of a call and of a command.
ids_apart : (s : String) → call_id_re s ≡ true → command_id_re s ≡ false
unfolding call_id_re command_id_re
ids_apart s h = prefixes_apart (codes s) h

module _ (env : Env) where
  -- The end of a call that is not known takes out none of the pending calls, if its id is that of a
  -- call and theirs are those of commands, which the protocol demands.
  pub drop_pending_commands-keeps :
      (id : String) (m : List (String × PendingOutboundCall))
      → call_id_re id ≡ true
      → All (λ e. command_id_re (e.1).command_id ≡ true) m
      → drop_pending_commands env id m ≡ m
  unfolding drop_pending_commands
  drop_pending_commands-keeps id [] h k = refl
  drop_pending_commands-keeps id ((key, pending) ∷ m) h k =
      elim (Bool-cases (pending.command_id == id)) [
        | inl same ↦ absurd (cc (k.0, ids_apart id h, (eq_iff pending.command_id id).0 same))
        | inr other ↦
            rw other (ap (λ rest. (key, pending) ∷ rest) (drop_pending_commands-keeps id m h k.1))
      ]
