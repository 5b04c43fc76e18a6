-- ===== src/Proxy.antt =====
-- The application that the node's blocks are committed to (proxy/).
pub mod GasPool
pub mod Receipts
pub mod Chain
pub mod State
pub mod Lifecycle
pub mod Ledger
pub mod Applied
pub mod Written
pub mod Filed
pub mod Readback
pub mod Restart
pub mod NilPool
pub mod StateDb
pub mod Transition
