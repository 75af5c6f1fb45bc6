-- ===== src/Chat.antt =====
-- chat-service.
pub mod Presence
pub mod Keys
pub mod Calls
mod Samples
