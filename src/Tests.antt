-- ===== src/Tests.antt =====
-- Runs of the model, and the theorems at concrete inputs.
mod Responses
mod Accounts
mod Tasks
mod Fixtures
mod Conversations
mod Runs
mod Connections
mod Providers
mod Advanced
mod Code
mod Search
mod Defaults
mod Memory
mod Blocks
