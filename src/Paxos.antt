-- ===== src/Paxos.antt =====
-- paxos/paxos.go and paxos/msg.go: one Multi-Paxos instance of a node. A handler takes the instance
-- and a message, and returns the instance afterwards and what the node sent, in order; none is a
-- panic. `slots` is the field `slot` plus one, since the code starts it at -1, so slot numbers are
-- natural numbers and the next slot is `slots`. The time stamp of an entry, which nothing reads, is
-- left out. `db` is the store of the node that `Execute` runs on.
pub mod Exec
pub mod Phase1
pub mod Phase2
pub mod Update
pub mod Snapshot
pub mod Lead
pub mod Ballots
pub mod Accepted
pub mod Slots
pub mod Commit
pub mod Replica
use paxi.Common.{
  ℕ, zero, suc, ◌+◌, ◌-◌, ◌/◌, Bool, true, false, not, ◌&&◌, ◌||◌, Option, none, some, List, [],
  ◌∷◌, ◌++◌, Bytes, bytes_eq, codes, ltb, leb, ◌==◌, if◌then◌else◌, put,
}
use paxi.Id.{NodeId}
use paxi.Ballot.{Ballot}
use paxi.Quorum.{Quorum, new_quorum, majority}
use paxi.Config.{Config}
use paxi.Db.{Command, Database}
use paxi.Message.{Request, Reply}

-- P1a, prepare
pub record P1a : Type 0 where
  pub ballot : Ballot

pub record CommandBallot : Type 0 where
  pub command : Command
  pub ballot : Ballot

-- P1b, promise; the Go map `Log` is the list of its entries, in the order of an iteration.
pub record P1b : Type 0 where
  pub ballot : Ballot
  pub id : NodeId
  pub log : List (ℕ × CommandBallot)

-- P2a, accept
pub record P2a : Type 0 where
  pub ballot : Ballot
  pub slot : ℕ
  pub command : Command

-- P2b, accepted
pub record P2b : Type 0 where
  pub ballot : Ballot
  pub id : NodeId
  pub slot : ℕ

-- P3, commit
pub record P3 : Type 0 where
  pub ballot : Ballot
  pub slot : ℕ
  pub command : Command

pub data Message : Type 0 where
  prepare : P1a → Message
  promise : P1b → Message
  accept : P2a → Message
  accepted : P2b → Message
  commit_to : P3 → Message

-- What a handler does to the outside: the calls of Node and of Request.Reply.
pub data Output : Type 0 where
  broadcast : Message → Output
  multicast_quorum : ℕ → Message → Output
  send : NodeId → Message → Output
  forward : NodeId → Request → Output
  reply : Request → Reply → Output

-- type entry; none is a nil pointer.
pub record Entry : Type 0 where
  pub ballot : Ballot
  pub command : Command
  pub commit : Bool
  pub request : Option Request
  pub quorum : Option Quorum

-- type Paxos, with the fields that change.
pub record Paxos : Type 0 where
  pub log : ℕ → Option Entry
  pub execute : ℕ
  pub active : Bool
  pub ballot : Ballot
  pub slots : ℕ
  pub quorum : Quorum
  pub requests : List Request
  pub db : Database

-- The fields of an instance that do not change: its node's identifier, the quorum tests, the option
-- ReplyWhenCommit; and what it reads of the configuration.
pub record Setup : Type 0 where
  pub own : NodeId
  pub q1 : Quorum → Bool
  pub q2 : Quorum → Bool
  pub reply_when_commit : Bool
  pub thrifty : Bool
  pub n : ℕ

-- NewPaxos with no options: both quorum tests are Majority.
unfoldable pub default_setup : Config → NodeId → Bool → Setup
default_setup config own thrifty = record {
  own = own;
  q1 = majority config;
  q2 = majority config;
  reply_when_commit = false;
  thrifty = thrifty;
  n = config.n;
}

-- NewPaxos, on a node with this store.
unfoldable pub new_paxos : Database → Paxos
new_paxos db = record {
  log = λ s. none;
  execute = 0;
  active = false;
  ballot = 0;
  slots = 0;
  quorum = new_quorum;
  requests = [];
  db = db;
}
