-- ===== src/Enforcement.antt =====
-- scanner-agent/src/safe_enforcement.rs and scanner-agent/src/enforcement.rs: what is done about a
-- finding, under which safeguards, and how it is undone.
pub mod Sanitize
pub mod Plan
pub mod Safe
pub mod Seccomp
pub mod Controller
mod Tests
