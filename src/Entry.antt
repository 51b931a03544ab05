-- ===== src/Entry.antt =====
-- plugin/index.ts: the actions of the plugin, as the tool, the gateway and the command line run them.
pub mod Input
pub mod Actions
pub mod Handlers
pub mod Lifetime
