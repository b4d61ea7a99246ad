-- ===== src/Tests.antt =====
-- Concrete flows and stores, and the theorems at them.
pub mod Samples
pub mod Planning
pub mod Stores
pub mod Values
pub mod Access
pub mod Graphs
pub mod Signing
pub mod Serving
pub mod Scheduling
pub mod Versions
pub mod Working
