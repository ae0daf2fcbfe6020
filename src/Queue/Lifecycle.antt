-- ===== src/Queue/Lifecycle.antt =====
-- The lives of tickets under the operations of the store.
pub mod Frame
pub mod Evolves
pub mod Steps
pub mod Actions
pub mod Selection
pub mod CallNext
pub mod Sweep
pub mod Create
pub mod Requests
pub mod Runs
