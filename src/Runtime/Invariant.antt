-- ===== src/Runtime/Invariant.antt =====
-- plugin/src/runtime.ts: what holds of the call manager's state after any history. The children
-- say what the operations on sessions leave alone, and that each operation keeps the invariant.
pub mod Quiet
pub mod Entries
pub mod Sessions
pub mod Steps
pub mod History
pub mod Stopped
pub mod Status
pub mod Failing
