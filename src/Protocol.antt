-- ===== src/Protocol.antt =====
-- plugin/src/protocol.ts: the bridge protocol, its validator and its command builders.
pub mod Value
pub mod Pattern
pub mod Validators
pub mod Specs
pub mod Messages
pub mod Base64
pub mod Builders
pub mod Parse
