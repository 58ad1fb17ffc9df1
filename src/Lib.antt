-- ===== src/Lib.antt =====
-- paxi, a framework of Paxos protocols (Go): identifiers, ballots, quorums, the key-value store,
-- Multi-Paxos, KPaxos, WPaxos, the ABD register, Vertical Paxos, WanKeeper, the migration policies,
-- a graph, a queue and a stack.
--
-- Parts. A node has an identifier "Zone.Node" (id.go). A ballot packs a counter and an identifier
-- (ballot.go) and orders the leaders. A quorum (quorum.go) collects acknowledgements and is compared
-- with the counts of the configuration (config.go). A replica (paxos/paxos.go) runs phase 1 to
-- become leader and phase 2 to commit a command in a slot; committed commands are executed on the
-- store (db.go) in the order of the slots. The ABD register (abd/replica.go) uses the same store and
-- quorums without a leader. KPaxos (kpaxos) keeps a Paxos instance for each key, WPaxos (wpaxos)
-- gives each the grid quorums and moves a key's leader when a policy asks for it; the master of
-- Vertical Paxos (vpaxos) assigns keys to zones and ballots, its replicas run phase 2 in one zone
-- and ask a policy (policy.go) when to move a key. WanKeeper (wankeeper) gives each key a token,
-- which the leader of one zone has; its master hands the tokens out. lib/queue.go, lib/stack.go,
-- lib/set.go and lib/graph.go are containers. The linearizability checker (checker.go) keeps a graph
-- of the operations of a history.
--
-- Files. Common: Boolean tests, lists, maps and counting. Id: id.go. Ballot: ballot.go. Config: the
-- counts of config.go. Quorum: quorum.go. Db: db.go. Message: message.go. Paxos: paxos/paxos.go,
-- paxos/msg.go; Paxos/Replica paxos/replica.go; Paxos/Phase1 and Paxos/Phase2 hold the handlers and
-- Paxos/Exec the execution loop, the other children their properties. Wpaxos: the quorums of
-- wpaxos/kpaxos.go; Wpaxos/Replica wpaxos/replica.go and its messages; Wpaxos/Keys: what its
-- instances decide. Kpaxos: kpaxos/replica.go and kpaxos/msg.go, with the instances in Kpaxos/Keys.
-- Abd: abd/replica.go and abd/msg.go, with the get phase and the answers in its children. Queue:
-- lib/queue.go, with the ring in Queue/Ring. Stack: lib/stack.go. Vpaxos: the master of
-- vpaxos/master.go; Vpaxos/Instance vpaxos/paxos.go; Vpaxos/Replica vpaxos/replica.go. Wankeeper:
-- wankeeper/msg.go and wankeeper/tokens.go; Wankeeper/Leader wankeeper/leader.go and
-- wankeeper/master.go; Wankeeper/Handlers wankeeper/replica.go; Wankeeper/Balance, Steps, Commits
-- and Run: the tokens in a run; Wankeeper/Ends: its execution loop. Checker: operation.go and
-- checker.go. Policy: policy.go. Set: lib/set.go. Graph: lib/graph.go. Tests: evaluations and
-- applications of the theorems.
--
-- Correspondence. A struct is a record with the fields of the source, a map a function, or an
-- association list where the code counts or ranges over it; a range over a map is a list in any
-- order. A handler takes the state and a message and returns the state and the list of what it sent;
-- none stands for a panic. ints and uint64s are numbers below 2^64, with the wrap written out where
-- the code shifts or adds ballots; slots, sizes and versions are plain numbers. exec runs on fuel,
-- one more than the slots in use from execute on, which is enough since each round takes one slot
-- and no entry stands above them; the graph searches run on fuel from the number of vertices, which
-- is enough since each is visited once.
--
-- Not modelled. Network, HTTP, goroutines, timers, logging and the file of the configuration;
-- mutexes make each method of the store one step. EPaxos, M2Paxos, Dynamo, the Paxos groups, the
-- block chain, the history of clients, the hash ring and the concurrent maps are not modelled; the
-- depth first search of a graph and the ema policy, which computes with floating point numbers,
-- neither. Time stamps of log entries, which nothing reads.
pub mod Abd
pub mod Ballot
pub mod Checker
pub mod Common
pub mod Config
pub mod Db
pub mod Graph
pub mod Id
pub mod Kpaxos
pub mod Message
pub mod Paxos
pub mod Policy
pub mod Queue
pub mod Quorum
pub mod Set
pub mod Stack
pub mod Tests
pub mod Vpaxos
pub mod Wankeeper
pub mod Wpaxos
