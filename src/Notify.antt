-- ===== src/Notify.antt =====
-- services/notification-service: messages to visitors about the events of their tickets.
pub mod Payloads
pub mod Channels
pub mod Store
pub mod Delivery
pub mod Worker
pub mod Delays
pub mod Outcomes
pub mod Sends
pub mod Banned
pub mod Allowed
mod Tests
