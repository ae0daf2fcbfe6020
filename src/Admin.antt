-- ===== src/Admin.antt =====
-- services/admin-service: the configuration of branches, and the approval of its changes.
pub mod Rows
pub mod Store
pub mod Handlers
pub mod Approvals
mod Tests
