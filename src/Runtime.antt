-- ===== src/Runtime.antt =====
-- plugin/src/runtime.ts: the call manager.
pub mod Audio
pub mod State
pub mod Records
pub mod Sink
pub mod Sessions
pub mod Calls
pub mod Api
pub mod Snapshot
pub mod Start
pub mod Invariant
