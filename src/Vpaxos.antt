-- ===== src/Vpaxos.antt =====
-- vpaxos/master.go and vpaxos/msg.go: the messages of Vertical Paxos and the master, which assigns
-- each key to a zone and each zone to a ballot.
use paxi.Common.{ℕ, ◌≡◌, Option, none, some, List, [], ◌∷◌, put}
use paxi.Id.{NodeId, zone}
use paxi.Ballot.{Ballot, new_ballot, next}
use paxi.Db.{Key, Command}
use paxi.Message.{Request, Reply}
use paxi.Paxos.{P2a, P2b, P3}
pub mod Master
pub mod Instance
pub mod Replica

-- type master, less the replica beside it.
pub record MasterState : Type 0 where
  pub ballots : ℕ → Option Ballot
  pub keys : Key → Option ℕ

pub record Query : Type 0 where
  pub key : Key
  pub id : NodeId

pub record Move : Type 0 where
  pub key : Key
  pub from : NodeId
  pub to : NodeId

pub record Info : Type 0 where
  pub key : Key
  pub ballot : Ballot
  pub old_ballot : Ballot

-- The messages of the instance; P2a, P2b and P3 have the fields of those of paxos/msg.go.
pub record P1a : Type 0 where
  pub key : Key
  pub ballot : Ballot

pub record P1b : Type 0 where
  pub key : Key
  pub ballot : Ballot
  pub id : NodeId
  pub log : List (ℕ × Command)

pub data Message : Type 0 where
  p1a : P1a → Message
  p1b : P1b → Message
  p2a : P2a → Message
  p2b : P2b → Message
  p3 : P3 → Message
  query_master : Query → Message
  info : Info → Message
  move : Move → Message

-- The calls of the node and of Request.Reply.
pub data Output : Type 0 where
  send : NodeId → Message → Output
  broadcast : Message → Output
  multicast_zone : ℕ → Message → Output
  forward : NodeId → Request → Output
  reply : Request → Reply → Output

-- A missing key of `ballots` reads as 0, one of `keys` as zone 0.
abbrev pub or_zero : Option ℕ → ℕ
or_zero none = 0
or_zero (some n) = n

-- newMaster
unfoldable pub new_master : MasterState
new_master = record { ballots = λ z. none; keys = λ k. none }

-- The zone of a new key, which gets a first ballot.
unfoldable pub assign : MasterState → Key → NodeId → MasterState
assign m k id = record {
  keys = put m.keys k (some (zone id));
  ballots = elim (m.ballots (zone id)) [
    | none ↦ put m.ballots (zone id) (some (new_ballot 1 id))
    | some b ↦ m.ballots
  ];
}

unfoldable pub query : MasterState → Key → NodeId → MasterState × Ballot
unfolding assign
query m k id = elim (m.keys k) [
  | none ↦ (assign m k id, or_zero ((assign m k id).ballots (zone id)))
  | some z ↦ (m, or_zero (m.ballots z))
]

unfoldable pub handle_query : MasterState → Query → MasterState × List Output
unfolding query
handle_query m q =
    let (m', b) = query m q.key q.id in
    (m', send q.id (info (record { key = q.key; ballot = b; old_ballot = 0 })) ∷ [])

-- handleMove, less the update of the replica beside the master.
unfoldable pub handle_move : MasterState → Move → MasterState × List Output
handle_move m v =
    let old = or_zero (m.ballots (or_zero (m.keys v.key))) in
    let z = zone v.to in
    let b = next (or_zero (m.ballots z)) v.to in
    (
      record { keys = put m.keys v.key (some z); ballots = put m.ballots z (some b) },
      broadcast (info (record { key = v.key; ballot = b; old_ballot = old })) ∷ [],
    )

-- The state after queries in their order.
unfoldable pub queries : MasterState → List Query → MasterState
unfolding handle_query
queries m [] = m
queries m (q ∷ qs) = queries (handle_query m q).0 qs
