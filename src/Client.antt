-- ===== src/Client.antt =====
-- plugin/src/bridge-client.ts: the client of the bridge.
pub mod State
pub mod Connection
pub mod Messages
pub mod Commands
pub mod Steps
pub mod Promises
pub mod Wire
pub mod Revival
pub mod Orphans
