-- ===== src/Wankeeper.antt =====
-- wankeeper/msg.go, wankeeper/tokens.go and the structs of wankeeper/replica.go, wankeeper/leader.go
-- and wankeeper/master.go: a key is led in the zone whose leader has its token.
use paxi.Common.{
  ℕ, Bool, true, false, Option, none, some, List, [], ◌∷◌, bytes_eq, if◌then◌else◌, put,
}
use mathlib.Core.List.{map}
use paxi.Id.{NodeId}
use paxi.Ballot.{Ballot}
use paxi.Quorum.{Quorum}
use paxi.Db.{Key, Command, Database}
use paxi.Message.{Request, Reply}
use paxi.Policy.{Policy}
pub mod Leader
pub mod Handlers
pub mod Balance
pub mod Steps
pub mod Commits
pub mod Run
pub mod Ends

pub record Vote : Type 0 where
  pub ballot : Ballot
  pub id : NodeId

pub record Proposal : Type 0 where
  pub ballot : Ballot
  pub slot : ℕ
  pub command : Command

pub record Ack : Type 0 where
  pub ballot : Ballot
  pub id : NodeId
  pub slot : ℕ
  pub key : Key

pub record Commit : Type 0 where
  pub ballot : Ballot
  pub slot : ℕ
  pub command : Command

-- NewBallot, Vote, NewLeader, Proposal, Ack, Commit, Token and Revoke.
pub data Message : Type 0 where
  ballot_started : Ballot → Message
  voted : Vote → Message
  new_leader : Ballot → Message
  proposed : Proposal → Message
  acked : Ack → Message
  committed : Commit → Message
  token : Key → Message
  revoke : Key → Message

-- The calls of the node and of Request.Reply.
pub data Output : Type 0 where
  send : NodeId → Message → Output
  multicast_zone : ℕ → Message → Output
  forward : NodeId → Request → Output
  reply : Request → Reply → Output

-- type tokens
pub record Tokens : Type 0 where
  pub id : NodeId
  pub tokens : Key → Option NodeId
  pub master : Bool

unfoldable pub new_tokens : NodeId → Tokens
new_tokens id = record { id = id; tokens = λ k. none; master = false }

-- The master makes the token of a key that it does not know.
unfoldable pub contains : Tokens → Key → Tokens × Bool
contains t k = elim (t.tokens k) [
  | none ↦
      if t.master
      then (record t { tokens = put t.tokens k (some t.id) }, true)
      else (t, bytes_eq [] t.id)
  | some id ↦ (t, bytes_eq id t.id)
]

unfoldable pub add : Tokens → Key → Tokens
add t k = record t { tokens = put t.tokens k (some t.id) }

unfoldable pub get : Tokens → Key → NodeId
get t k = elim (t.tokens k) [ none ↦ [] | some id ↦ id ]

unfoldable pub set : Tokens → Key → NodeId → Tokens
set t k id = record t { tokens = put t.tokens k (some id) }

pub record Entry : Type 0 where
  pub cmd : Command
  pub commit : Bool
  pub req : Option Request
  pub quorum : Option Quorum

-- type master, less its leader; `leaders` is in the order in which a range meets it. A key without
-- pending requests has the empty list.
pub record MasterState (policy : Policy) : Type 0 where
  pub leaders : List (ℕ × NodeId)
  pub pending : Key → List Request
  pub policies : Key → Option policy.State

-- type leader, less its replica.
pub record LeaderState (policy : Policy) : Type 0 where
  pub active : Bool
  pub quorum : Quorum
  pub master : Option (MasterState policy)

-- type Replica, with the store of its node. The leader that Run makes keeps its handlers after the
-- replica gave it up: `leads` says that the field `leader` still points to it.
pub record Replica (policy : Policy) : Type 0 where
  pub log : Key → Option (ℕ → Option Entry)
  pub slot : Key → ℕ
  pub executed : Key → ℕ
  pub tokens : Tokens
  pub leader : Option (LeaderState policy)
  pub leads : Bool
  pub ballot : Ballot
  pub requests : List Request
  pub db : Database

-- NewReplica, on a node with this identifier and store.
unfoldable pub new_replica : (policy : Policy) → NodeId → Database → Replica policy
unfolding new_tokens
new_replica policy id db = record {
  log = λ k. none;
  slot = λ k. 0;
  executed = λ k. 0;
  tokens = new_tokens id;
  leader = none;
  leads = false;
  ballot = 0;
  requests = [];
  db = db;
}

module _ {policy : Policy} where
  unfoldable pub entry_at : Replica policy → Key → ℕ → Option Entry
  entry_at r k s = elim (r.log k) [ none ↦ none | some entries ↦ entries s ]

  -- `r.log[k][s] = e`, after init of the key.
  abbrev pub set_entry : Replica policy → Key → ℕ → Entry → Replica policy
  set_entry r k s e = record r { log = put r.log k (some (put (entry_at r k) s (some e))) }

  unfoldable pub master_of : Replica policy → Option (MasterState policy)
  master_of r = elim r.leader [ none ↦ none | some l ↦ l.master ]

  abbrev pub set_master : Replica policy → MasterState policy → Replica policy
  set_master r m = elim r.leader [
    | none ↦ r
    | some l ↦ record r { leader = some (record l { master = some m }) }
  ]
