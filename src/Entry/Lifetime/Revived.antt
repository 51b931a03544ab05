-- ===== src/Entry/Lifetime/Revived.antt =====
-- plugin/index.ts: a service that is stopped while its runtime is being made.
