-- ===== src/Agent.antt =====
-- src/agent: how a request of a device is accepted, streamed and followed by background agents.
pub mod Advanced
pub mod Background
pub mod Memory
pub mod Search
pub mod Capacity
pub mod Code
pub mod Request
pub mod Dispatch
pub mod Shared
mod Untouched
pub mod Streaming
