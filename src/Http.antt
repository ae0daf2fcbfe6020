-- ===== src/Http.antt =====
-- services/queue-service/internal/httpapi: the HTTP interface of the queue service.
pub mod Text
pub mod Messages
pub mod Web
pub mod Auth
pub mod Decode
pub mod Writes
pub mod Reads
pub mod Actions
pub mod RateLimit
pub mod Routes
pub mod Effects
pub mod Refused
pub mod Tests
