-- ===== src/Manager.antt =====
-- neorc_core/_manager.py: what the manager does for flows, against the store port, but for uploads.
-- Wake-ups are hints and are left out.
pub mod Calls
pub mod Checks
pub mod Flows
pub mod Scheduling
pub mod Working
pub mod Reading
pub mod Starting
pub mod Requests
pub mod Waiting
pub mod Serving
pub mod Asked
pub mod Admitted
pub mod Unchanged
pub mod Queues
pub mod Reports
pub mod Inputs
