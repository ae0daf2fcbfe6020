-- ===== src/Queue/Endings.antt =====
-- How the transactions of the operations end.
pub mod Closed
pub mod LeftOpen
pub mod Refused
