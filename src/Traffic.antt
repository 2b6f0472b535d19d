-- ===== src/Traffic.antt =====
-- scanner-agent/src/tc_enforcer.rs: addresses, ports and control groups that are cut off by programs in
-- the kernel, which read what to block from their maps.
pub mod KernelMaps
pub mod Rules
pub mod Enforcer
pub mod Held
pub mod Recorded
mod Tests
