-- ===== src/Flow.antt =====
-- neorc_core/flows: what a flow is, what a run of it has produced, and what a reference resolves to.
pub mod Definition
pub mod Walk
pub mod RunState
pub mod References
pub mod Validation
pub mod Versions
