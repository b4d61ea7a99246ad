-- ===== src/Store/Refines.antt =====
-- The operations of the store are sequences of changes of the abstract machine.
pub mod Tasks
pub mod Runs
pub mod Flows
