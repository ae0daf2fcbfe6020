-- ===== src/Queue.antt =====
-- services/queue-service: the ticket store.
pub mod Models
pub mod Transitions
pub mod Payload
pub mod Db
pub mod Tx
pub mod Rows
pub mod Decimal
pub mod Events
pub mod Doubles
pub mod Routing
pub mod Requests
pub mod Create
pub mod CallNext
pub mod Actions
pub mod Operations
pub mod AutoNoShow
pub mod Rehydrate
pub mod Reads
pub mod Accounts
pub mod Entitled
pub mod Service
pub mod Lifecycle
pub mod Endings
pub mod Repeats
pub mod Choice
pub mod Numbers
pub mod Chain
pub mod Windows
pub mod Rounding
pub mod Overdue
pub mod Listing
pub mod Rebuilt
pub mod Tests
