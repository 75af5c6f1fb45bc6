-- ===== src/Chat/Calls.antt =====
-- The calls of chat-service.
pub mod Entities
pub mod Service
pub mod Listed
pub mod Runs
pub mod Hanging
pub mod Signals
mod Samples
