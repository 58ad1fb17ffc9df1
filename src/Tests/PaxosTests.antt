-- ===== src/Tests/PaxosTests.antt =====
-- Three Paxos replicas of one zone, message by message.
pub mod Cluster
mod Theorems
