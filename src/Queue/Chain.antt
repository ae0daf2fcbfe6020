-- ===== src/Queue/Chain.antt =====
-- store/postgres/store.go: the hash chain of the events of a ticket, which `insertTicketEvent`
-- extends.
pub mod Linked
pub mod Insert
pub mod Operations
pub mod Calls
pub mod Requests
