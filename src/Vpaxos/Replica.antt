-- ===== src/Vpaxos/Replica.antt =====
-- vpaxos/replica.go: a node of Vertical Paxos, which knows the ballots of the keys and asks the master
-- for others. The policy is the interface of policy.go.
use paxi.Common.{
  ℕ, Bool, true, false, not, ◌&&◌, Option, none, some, List, [], ◌∷◌, ◌++◌, Bytes, bytes_eq, ◌==◌,
  if◌then◌else◌, put,
}
use paxi.Id.{NodeId, zone}
use paxi.Ballot.{Ballot, ballot_id}
use paxi.Config.{Config}
use paxi.Db.{Key}
use paxi.Message.{Request}
use paxi.Policy.{Policy}
use paxi.Paxos.{Paxos}
use paxi.Vpaxos.{
  MasterState, Query, Move, Info, P1a, Output, send, broadcast, multicast_zone, forward, p1a, p1b,
  p2a, p2b, p3, Message, query_master, info, move, new_master, query, handle_query, handle_move,
  or_zero,
}
use paxi.Vpaxos.Instance
pub mod Keyed
pub mod Pending

-- type Replica, with the instance and the master that it points to; the master is beside one node.
pub record Replica (policy : Policy) : Type 0 where
  pub paxos : Paxos
  pub index : Key → Option Ballot
  pub policies : Key → Option policy.State
  pub pending : Key → Option (List Request)
  pub master : Option MasterState

-- NewReplica, on a node with this identifier and this instance of newPaxos.
unfoldable pub new_replica : (policy : Policy) → NodeId → NodeId → Paxos → Replica policy
new_replica policy own mid p = record {
  paxos = p;
  index = λ k. none;
  policies = λ k. none;
  pending = λ k. none;
  master = if bytes_eq own mid then some new_master else none;
}

abbrev pub or_empty : Option (List Request) → List Request
or_empty none = []
or_empty (some ms) = ms

module _ (policy : Policy) (config : Config) (own : NodeId) (mid : NodeId) where
  -- What handleMove of the master does to the replica beside it.
  unfoldable pub move_here : Replica policy → MasterState → Move → Replica policy × List Output
  move_here r m v =
      let (m', out) = handle_move m v in
      let b = or_zero (m'.ballots (zone v.to)) in
      let r' = record r { master = some m'; index = put r.index v.key (some b) } in
      (
        if bytes_eq (ballot_id b) own
            then record r' { paxos = record r'.paxos { ballot = b } }
            else r',
        out,
      )

  unfoldable pub monitor : Replica policy → Key → NodeId → Replica policy × List Output
  unfolding move_here
  monitor r k id =
      let (state, to) = policy.hit (elim (r.policies k) [ none ↦ policy.fresh | some s ↦ s ]) id in
      let r' = record r { policies = put r.policies k (some state) } in
      if not (bytes_eq to []) && not (zone to == zone own)
      then (let v : Move = record { key = k; from = own; to = to } in
          elim r.master [ none ↦ (r', send mid (move v) ∷ []) | some m ↦ move_here r' m v ])
      else (r', [])

  -- The end of handleRequest, with the ballot of the key.
  unfoldable pub serve : Replica policy → Ballot → Request → Replica policy × List Output
  unfolding monitor
  serve r b m =
      if bytes_eq (ballot_id b) own
      then (let (p, out) = Instance.handle_request config own r.paxos m in
          let (r', outs) = monitor (record r { paxos = p }) m.command.key m.node_id in
          (r', out ++ outs))
      else (r, forward (ballot_id b) m ∷ [])

  -- `b = r.master.query(k, r.ID())` and what follows in its block.
  unfoldable pub ask_master : Replica policy → MasterState → Key → Replica policy × Ballot
  ask_master r m k =
      let (m', b) = query m k own in
      let r' = record r { master = some m'; index = put r.index k (some b) } in
      (
        if bytes_eq (ballot_id b) own
            then record r' { paxos = record r'.paxos { ballot = b; active = true } }
            else r',
        b,
      )

  unfoldable pub handle_request : Replica policy → Request → Replica policy × List Output
  unfolding serve ask_master
  handle_request r m =
      let k = m.command.key in
      elim (r.index k) [
        | some b ↦ serve r b m
        | none ↦ elim r.master [
          | none ↦ (
            record r { pending = put r.pending k (some (or_empty (r.pending k) ++ m ∷ [])) },
            send mid (query_master (record { key = k; id = own })) ∷ [],
          )
          | some ms ↦ let (r', b) = ask_master r ms k in serve r' b m
        ]
      ]

  -- `for _, request := range r.pending[m.Key]`
  unfoldable pub handle_requests : Replica policy → List Request → Replica policy × List Output
  unfolding handle_request
  handle_requests r [] = (r, [])
  handle_requests r (m ∷ ms) =
      let (r', out) = handle_request r m in
      let (r'', outs) = handle_requests r' ms in (r'', out ++ outs)

  -- handleInfo up to the pending requests.
  unfoldable pub take_info : Replica policy → Info → Replica policy × List Output
  take_info r m =
      let r' = record r { index = put r.index m.key (some m.ballot) } in
      if bytes_eq (ballot_id m.ballot) own
      then (if m.old_ballot == 0
          then (record r' { paxos = record r'.paxos { ballot = m.ballot; active = true } }, [])
          else (
            record r' { paxos = record r'.paxos { ballot = m.ballot; active = false } },
            multicast_zone (zone (ballot_id m.old_ballot))
                  (p1a (record { key = m.key; ballot = m.ballot }))
                ∷ [],
          ))
      else (r', [])

  -- handleInfo on the pending requests of the key.
  unfoldable pub settle : Replica policy → Key → List Request → Replica policy × List Output
  unfolding handle_requests
  settle r k [] = (r, [])
  settle r k (q ∷ qs) =
      let (r', out) = handle_requests r (q ∷ qs) in
      (record r' { pending = put r'.pending k (some []) }, out)

  unfoldable pub handle_info : Replica policy → Info → Replica policy × List Output
  unfolding take_info settle
  handle_info r m =
      let (r', out) = take_info r m in
      let (r'', outs) = settle r' m.key (or_empty (r'.pending m.key)) in (r'', out ++ outs)

  -- handleP1a
  unfoldable pub handle_p1a : Replica policy → P1a → Replica policy × List Output
  handle_p1a r m = (
    r,
    send (ballot_id m.ballot) (p1b (record { key = m.key; ballot = m.ballot; id = own; log = [] }))
        ∷ [],
  )

  -- The handlers that NewReplica, newPaxos and newMaster register. A message of the master stops a
  -- node without one, and a panic of the instance stops it too.
  unfoldable pub deliver : Replica policy → Message → Option (Replica policy × List Output)
  unfolding handle_info handle_p1a move_here
  deliver r (info m) = some (handle_info r m)
  deliver r (p1a m) = some (handle_p1a r m)
  deliver r (p1b m) =
      let (p, out) = Instance.handle_p1b config own r.paxos m in some (record r { paxos = p }, out)
  deliver r (p2a m) =
      let (p, out) = Instance.handle_p2a config own r.paxos m in some (record r { paxos = p }, out)
  deliver r (p2b m) = elim (Instance.handle_p2b config own r.paxos m) [
    | none ↦ none
    | some s ↦ some (record r { paxos = s.0 }, s.1)
  ]
  deliver r (p3 m) =
      let (p, out) = Instance.handle_p3 config own r.paxos m in some (record r { paxos = p }, out)
  deliver r (query_master m) = elim r.master [
    | none ↦ none
    | some ms ↦ let (ms', out) = handle_query ms m in some (record r { master = some ms' }, out)
  ]
  deliver r (move m) = elim r.master [ none ↦ none | some ms ↦ some (move_here r ms m) ]
