-- ===== src/Reliability.antt =====
-- scanner-agent/src/reliability.rs: backpressure, circuit breaker, watchdog, metrics and health.
pub mod Config
pub mod Backpressure
pub mod Breaker
pub mod Watchdog
pub mod Metrics
pub mod Health
mod Tests
