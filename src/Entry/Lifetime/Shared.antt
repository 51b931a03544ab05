-- ===== src/Entry/Lifetime/Shared.antt =====
-- plugin/index.ts: the runtimes of a service, whatever happens.
use openclaw_sip_voice.Base.{
  ℕ, suc, ◌+◌, ◌<◌, ◌≤◌, ◌≡◌, refl, inl, inr, Bool, List, [], ◌∷◌, Option, none, some, if_cases,
  arith, eqb, All, sym, subst,
}
use openclaw_sip_voice.Entry.Lifetime.{
  Service, new_service, Ensured, await_promise, ensure_found, ensure_runtime, without_one,
  ensure_resumed, stopped_with, stop_begun, stop_ended, Among, Step, Reach, ensures, resumes,
  begins_stop, ends_stop, here, next,
}

abbrev pub Below : ℕ → Option ℕ → Type 0
Below n none = Unit
Below n (some p) = p < n

-- One if there is a promise.
abbrev held : Option ℕ → ℕ
held none = 0
held (some p) = 1

held-le : (o : Option ℕ) → held o ≤ 1
held-le none = omega arith
held-le (some p) = omega arith

Below-suc : (n : ℕ) (o : Option ℕ) → Below n o → Below (suc n) o
Below-suc n none h = tt
Below-suc n (some p) h = omega (arith, h)

-- While there is no runtime, the one that is being made was not stopped.
abbrev pub IsFresh : Option ℕ → Option ℕ → List ℕ → Type 0
IsFresh none (some p) ps = ¬ (Among p ps)
IsFresh _ _ ps = Unit

IsFresh-held : (o : Option ℕ) (r : ℕ) (ps : List ℕ) → IsFresh (some r) o ps
IsFresh-held none r ps = tt
IsFresh-held (some p) r ps = tt

module _ (enabled : Bool) (made : ℕ → Bool) where
  -- How often `stop` came to its end.
  abbrev pub count_end : {s t : Service} → Step enabled made s t → ℕ → ℕ
  count_end ensures n = n
  count_end (resumes p h) n = n
  count_end begins_stop n = n
  count_end (ends_stop m e) n = suc n

  abbrev pub ends : {s t : Service} → Reach enabled made s t → ℕ
  ends here = 0
  ends (next r st) = count_end st (ends r)

  -- What holds after `n` ends of `stop`.
  pub record Inv (n : ℕ) (s : Service) : Type 0 where
    pub bound : s.created ≤ n + held s.runtime_promise
    pub known : Below s.created s.runtime
    pub promised : Below s.created s.runtime_promise
    pub awaited : All (λ p. p < s.created) s.waiting
    pub ended : All (λ p. p < s.created) s.stopped
    pub fresh : IsFresh s.runtime s.runtime_promise s.stopped

  wider : (m n : ℕ) (ps : List ℕ) → m ≤ n → All (λ p. p < m) ps → All (λ p. p < n) ps
  wider m n [] h a = tt
  wider m n (p ∷ ps) h (b, a) = (omega (arith, h, b), wider m n ps h a)

  fewer : (m p : ℕ) (qs : List ℕ) → All (λ q. q < m) qs → All (λ q. q < m) (without_one p qs)
  unfolding without_one
  fewer m p [] a = tt
  fewer m p (q ∷ qs) (b, a) =
      if_cases (All (λ r. r < m)) (eqb q p) (λ _. a) (λ _. (b, fewer m p qs a))

  one_of : (m p : ℕ) (qs : List ℕ) → All (λ q. q < m) qs → Among p qs → p < m
  one_of m p [] a h = elim h [ ]
  one_of m p (q ∷ qs) (b, a) (inl e) = omega (arith, e, b)
  one_of m p (q ∷ qs) (b, a) (inr h) = one_of m p qs a h

  await_promise-Inv :
      (n : ℕ) (o : Option ℕ) (s : Service)
      → s.runtime_promise ≡ o
      → s.runtime ≡ none
      → Inv n s
      → Inv n (await_promise o s).1
  unfolding await_promise
  await_promise-Inv n (some p) s e idle v =
      let low : Below s.created (some p) = rw e at v.promised in
      record {
        bound = v.bound;
        known = v.known;
        promised = v.promised;
        awaited = (low, v.awaited);
        ended = v.ended;
        fresh = v.fresh;
      }
  await_promise-Inv n none s e idle v =
      let bound : s.created ≤ n + held none = rw e at v.bound in
      record {
        bound = omega (arith, bound);
        known = Below-suc s.created s.runtime v.known;
        promised = omega arith;
        awaited = (omega arith, wider s.created (suc s.created) s.waiting (omega arith) v.awaited);
        ended = wider s.created (suc s.created) s.stopped (omega arith) v.ended;
        fresh =
            subst (λ o. IsFresh o (some s.created) s.stopped) (sym idle)
              (λ h. let low = one_of s.created s.created s.stopped v.ended h in omega (arith, low));
      }

  ensure_runtime-Inv : (n : ℕ) (s : Service) → Inv n s → Inv n (ensure_runtime enabled s).1
  unfolding ensure_runtime ensure_found
  ensure_runtime-Inv n s v =
      if_cases (λ (r : Ensured × Service). Inv n r.1) enabled (λ _. found s.runtime refl) (λ _. v)
    where
      found : (o : Option ℕ) → s.runtime ≡ o → Inv n (ensure_found o s).1
      found (some r) e = v
      found none e = await_promise-Inv n s.runtime_promise s refl e v

  ensure_resumed-Inv :
      (n p : ℕ) (ok : Bool) (s : Service)
      → Among p s.waiting
      → Inv n s
      → Inv n (ensure_resumed ok p s)
  unfolding ensure_resumed
  ensure_resumed-Inv n p ok s h v =
      let rest = fewer s.created p s.waiting v.awaited in
      if_cases (Inv n) ok {x = record s { waiting = without_one p s.waiting; runtime = some p }}
        {y = record s { waiting = without_one p s.waiting }}
        (λ _. record {
          bound = v.bound;
          known = one_of s.created p s.waiting v.awaited h;
          promised = v.promised;
          awaited = rest;
          ended = v.ended;
          fresh = IsFresh-held s.runtime_promise p s.stopped;
        })
        (λ _. record {
          bound = v.bound;
          known = v.known;
          promised = v.promised;
          awaited = rest;
          ended = v.ended;
          fresh = v.fresh;
        })

  stopped_with-ended :
      (m : ℕ) (o : Option ℕ) (ps : List ℕ)
      → Below m o
      → All (λ p. p < m) ps
      → All (λ p. p < m) (stopped_with o ps)
  stopped_with-ended m none ps h a = a
  stopped_with-ended m (some r) ps h a = (h, a)

  stopped_with-IsFresh :
      (o promise : Option ℕ) (ps : List ℕ)
      → IsFresh o promise ps
      → IsFresh o promise (stopped_with o ps)
  stopped_with-IsFresh none promise ps h = h
  stopped_with-IsFresh (some r) promise ps h = IsFresh-held promise r (r ∷ ps)

  stop_begun-Inv : (n : ℕ) (s : Service) → Inv n s → Inv n (stop_begun s)
  unfolding stop_begun
  stop_begun-Inv n s v = record {
    bound = v.bound;
    known = v.known;
    promised = v.promised;
    awaited = v.awaited;
    ended = stopped_with-ended s.created s.runtime s.stopped v.known v.ended;
    fresh = stopped_with-IsFresh s.runtime s.runtime_promise s.stopped v.fresh;
  }

  Step-Inv : (n : ℕ) {s t : Service} (st : Step enabled made s t) → Inv n s → Inv (count_end st n) t
  unfolding stop_ended
  Step-Inv n {s} ensures v = ensure_runtime-Inv n s v
  Step-Inv n {s} (resumes p h) v = ensure_resumed-Inv n p (made p) s h v
  Step-Inv n {s} begins_stop v = stop_begun-Inv n s v
  Step-Inv n {s} (ends_stop m e) v =
      let most = held-le s.runtime_promise in
      record {
        bound = omega (arith, v.bound, most);
        known = tt;
        promised = tt;
        awaited = v.awaited;
        ended = v.ended;
        fresh = tt;
      }

  pub Reach-Inv : {t : Service} (r : Reach enabled made new_service t) → Inv (ends r) t
  unfolding new_service
  Reach-Inv here = record {
    bound = omega arith;
    known = tt;
    promised = tt;
    awaited = tt;
    ended = tt;
    fresh = tt;
  }
  Reach-Inv (next r st) = Step-Inv (ends r) st (Reach-Inv r)

  -- After any history createSipVoiceRuntime was called at most once more often than `stop` came to its
  -- end, however many calls of ensureRuntime there were; the runtime of the service, if there is one,
  -- and each one that is awaited are of one of these calls.
  pub Reach-created :
      (s : Service) (r : Reach enabled made new_service s)
      → (s.created ≤ suc (ends r)) × Below s.created s.runtime × All (λ p. p < s.created) s.waiting
  Reach-created s r =
      let v = Reach-Inv r in
      let most = held-le s.runtime_promise in (omega (arith, v.bound, most), v.known, v.awaited)
