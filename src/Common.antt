-- ===== src/Common.antt =====
-- scanner-common/src/lib.rs: the types that the kernel programs, the agent and the aggregator share.
pub mod Kind
pub mod Events
pub mod CString
pub mod Finding
