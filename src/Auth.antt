-- ===== src/Auth.antt =====
-- services/auth-service: the sign-in of users, which creates the sessions that the other services
-- read.
pub mod Run
pub mod Rows
pub mod Mapped
pub mod Store
pub mod Tokens
pub mod Handlers
pub mod SignIn
pub mod Sessions
pub mod Bearer
pub mod Accounts
pub mod Refusals
pub mod Dots
pub mod Signatures
pub mod TokenSessions
mod Tests
