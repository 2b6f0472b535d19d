-- ===== src/State.antt =====
-- scanner-agent/src/state.rs: what the agent knows of each workload, and its store of findings.
pub mod Workload
pub mod Store
pub mod Bounds
pub mod Isolation
pub mod Traffic
pub mod Findings
mod Tests
