-- ===== src/Attack.antt =====
-- scanner-agent/src/runtime_attack_graph_v2.rs: which processes load which libraries and talk to which
-- addresses, and the attack paths that this shows for a finding.
pub mod DiGraph
pub mod Nodes
pub mod Runtime
pub mod Paths
pub mod Ranking
mod Tests
pub mod Attach
