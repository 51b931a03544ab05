-- ===== src/Tests/Services.antt =====
-- plugin/index.ts: a service whose runtime is being made.
use openclaw_sip_voice.Base.{ℕ, suc, ◌<◌, ◌≤◌, Bool, true, All}
use openclaw_sip_voice.Entry.Lifetime.{
  Service, new_service, ensure_runtime, Reach, ensures, here, next,
}
use openclaw_sip_voice.Entry.Lifetime.Shared.{Below, ends, Reach-created}

abbrev always : ℕ → Bool
always p = true

-- The service was started, and an action came before the runtime was there.
abbrev starting_service : Service
starting_service = (ensure_runtime true (ensure_runtime true new_service).1).1

starting_service-Reach : Reach true always new_service starting_service
starting_service-Reach = next (next here ensures) ensures

Reach-created_example :
    (starting_service.created ≤ suc (ends true always starting_service-Reach))
    × Below starting_service.created starting_service.runtime
    × All (λ p. p < starting_service.created) starting_service.waiting
Reach-created_example = Reach-created true always starting_service starting_service-Reach
