-- ===== src/Tests.antt =====
-- Evaluations of the models at concrete inputs, and the theorems of the other modules at inputs that
-- meet their hypotheses.
mod Nodes
mod QuorumTests
mod BallotTests
mod DbTests
mod PaxosTests
mod QueueTests
mod AbdTests
mod CheckerTests
mod KpaxosTests
mod ReplicaTests
mod VpaxosTests
mod WankeeperTests
mod WpaxosTests
mod StackTests
mod GraphTests
mod PolicyTests
