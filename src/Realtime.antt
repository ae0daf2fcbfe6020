-- ===== src/Realtime.antt =====
-- services/realtime-service: events of the outbox for the browsers that listen.
pub mod Hub
pub mod Sessions
pub mod Polling
pub mod Server
pub mod Entry
pub mod Kept
pub mod Scope
pub mod Broadcast
pub mod Retention
pub mod Pages
mod Tests
