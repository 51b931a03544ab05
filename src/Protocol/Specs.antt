-- ===== src/Protocol/Specs.antt =====
-- plugin/src/protocol.ts: the specs of the objects inside of messages, and MESSAGE_SPECS in the
-- children, one for the bridge's events and one for the plugin's commands.
pub mod Parts
pub mod Events
pub mod Commands
