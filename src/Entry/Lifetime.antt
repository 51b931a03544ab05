-- ===== src/Entry/Lifetime.antt =====
-- plugin/index.ts: ensureRuntime and the service, over the variables that they share.
pub mod Shared
pub mod Revived
use openclaw_sip_voice.Base.{
  ℕ, suc, ◌≡◌, ◌⊎◌, Bool, true, false, String, List, [], ◌∷◌, Option, none, some, if◌then◌else◌,
  eqb,
}

-- The variables of `register`, where a runtime goes by the number of the call of
-- createSipVoiceRuntime that makes it; `waiting` lists the calls of ensureRuntime that await the promise
-- of that number, `stopping` counts the calls of `stop` that await, and `stopped` lists the runtimes
-- whose `stop` was called.
pub record Service : Type 0 where
  pub runtime : Option ℕ
  pub runtime_promise : Option ℕ
  pub waiting : List ℕ
  pub stopping : ℕ
  pub created : ℕ
  pub stopped : List ℕ

unfoldable pub new_service : Service
new_service = record {
  runtime = none;
  runtime_promise = none;
  waiting = [];
  stopping = 0;
  created = 0;
  stopped = [];
}

-- What a call of ensureRuntime comes to at once: it throws, it returns a runtime, or it awaits.
pub data Ensured : Type 0 where
  ensure_refused : String → Ensured
  ensured : ℕ → Ensured
  awaits : ℕ → Ensured

-- `runtimePromise ??= createSipVoiceRuntime(…)`, and the `await`
unfoldable pub await_promise : Option ℕ → Service → Ensured × Service
await_promise (some p) s = (awaits p, record s { waiting = p ∷ s.waiting })
await_promise none s = (
  awaits s.created,
  record s {
    runtime_promise = some s.created;
    created = suc s.created;
    waiting = s.created ∷ s.waiting;
  },
)

unfoldable pub ensure_found : Option ℕ → Service → Ensured × Service
unfolding await_promise
ensure_found (some r) s = (ensured r, s)
ensure_found none s = await_promise s.runtime_promise s

-- ensureRuntime, for the `enabled` of the configuration
unfoldable pub ensure_runtime : Bool → Service → Ensured × Service
unfolding ensure_found
ensure_runtime enabled s =
    if enabled
    then ensure_found s.runtime s
    else (ensure_refused "sip-voice is disabled in plugin config", s)

-- One element less.
unfoldable pub without_one : ℕ → List ℕ → List ℕ
without_one p [] = []
without_one p (q ∷ qs) = let rest = without_one p qs in if eqb q p then qs else q ∷ rest

-- A call of ensureRuntime goes on after its `await`; `fulfilled` says whether createSipVoiceRuntime
-- made a runtime.
unfoldable pub ensure_resumed : Bool → ℕ → Service → Service
ensure_resumed fulfilled p s =
    let s' = record s { waiting = without_one p s.waiting } in
    if fulfilled then record s' { runtime = some p } else s'

abbrev pub stopped_with : Option ℕ → List ℕ → List ℕ
stopped_with none rs = rs
stopped_with (some r) rs = r ∷ rs

-- `stop` of the service up to its `await`, and the rest.
unfoldable pub stop_begun : Service → Service
stop_begun s = record s { stopped = stopped_with s.runtime s.stopped; stopping = suc s.stopping }

unfoldable pub stop_ended : ℕ → Service → Service
stop_ended others s = record s { runtime = none; runtime_promise = none; stopping = others }

-- In a list of numbers.
abbrev pub Among : ℕ → List ℕ → Type 0
Among p [] = ⊥
Among p (q ∷ qs) = (p ≡ q) ⊎ Among p qs

-- `made` says which calls of createSipVoiceRuntime make a runtime, and which reject.
module _ (enabled : Bool) (made : ℕ → Bool) where
  -- What can happen next, in any order: `start` of the service and the actions call ensureRuntime.
  pub data Step (s : Service) : Service → Type 0 where
    ensures : Step s (ensure_runtime enabled s).1
    resumes : (p : ℕ) → Among p s.waiting → Step s (ensure_resumed (made p) p s)
    begins_stop : Step s (stop_begun s)
    ends_stop : (n : ℕ) → s.stopping ≡ suc n → Step s (stop_ended n s)

  pub data Reach (s : Service) : Service → Type 0 where
    here : Reach s s
    next : {t u : Service} → Reach s t → Step t u → Reach s u
