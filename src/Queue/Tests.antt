-- ===== src/Queue/Tests.antt =====
-- The service on a small database: runs of its operations, and uses of the theorems.
pub mod Fixture
mod Examples
