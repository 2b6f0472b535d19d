-- ===== src/Risk.antt =====
-- scanner-agent/src/risk_engine.rs: the score of a vulnerability, the findings that come of it, the
-- cache of scores, and the profile of allowed system calls.
pub mod Score
pub mod Evaluate
pub mod Cache
mod Tests
