-- ===== src/Consumer.antt =====
-- scanner-agent/src/event_consumer.rs: from the kernel's records to events of the state store.
pub mod Bytes
pub mod Records
pub mod Filter
pub mod Intake
pub mod Flush
pub mod Loop
pub mod Security
mod Tests
