-- ===== src/Tests.antt =====
-- Runs of the model on concrete inputs, and each theorem at such an input.
mod Inputs
mod Messages
mod Commands
mod Surroundings
mod Calls
mod Runs
mod Clients
mod FixtureRuns
mod Entries
mod Services
