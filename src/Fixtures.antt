-- ===== src/Fixtures.antt =====
-- protocol/validator.mjs: the validator that the fixtures of the protocol are checked with.
pub mod Parts
pub mod Events
pub mod Commands
pub mod Messages
pub mod Payload
pub mod Alike
pub mod Errors
pub mod SameSpecs
pub mod Agreement
pub mod Run
