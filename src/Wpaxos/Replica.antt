-- ===== src/Wpaxos/Replica.antt =====
-- wpaxos/replica.go, wpaxos/msg.go and the instances of wpaxos/kpaxos.go: one Paxos instance and one
-- policy for each key. Prepare to Commit and the wrapping of messages are those of kpaxos.
use paxi.Common.{
  ℕ, Bool, not, ◌&&◌, ◌||◌, Option, none, some, List, [], ◌∷◌, ◌++◌, bytes_eq, ◌==◌, if◌then◌else◌,
  put,
}
use mathlib.Core.List.{map}
use paxi.Id.{NodeId, zone}
use paxi.Ballot.{Ballot, ballot_id}
use paxi.Config.{Config}
use paxi.Db.{Key, Database}
use paxi.Message.{Request}
use paxi.Paxos
use paxi.Paxos.{Paxos, Setup, new_paxos}
use paxi.Paxos.Phase1.{is_leader, start_phase1, handle_request}
use paxi.Paxos.Phase2
use paxi.Policy.{Policy}
use paxi.Kpaxos
use paxi.Kpaxos.{makes_instance, wrap}
use paxi.Wpaxos.{q1, q2}

pub record LeaderChange : Type 0 where
  pub key : Key
  pub to : NodeId
  pub from : NodeId
  pub ballot : Ballot

pub data Message : Type 0 where
  keyed : Key → Paxos.Message → Message
  leader_change : LeaderChange → Message

-- What an instance does through its node, and the message of the default case of Send.
pub data Output : Type 0 where
  of_instance : Kpaxos.Output → Output
  send_change : NodeId → LeaderChange → Output

-- type Replica, with the store of its node, on which the instances work; a field of theirs for it is
-- replaced at each use. A policy that was not hit is missing.
pub record Replica (policy : Policy) : Type 0 where
  pub instances : Key → Option Paxos
  pub policies : Key → Option policy.State
  pub db : Database

-- The options of newKPaxos.
unfoldable pub with_quorums : Config → ℕ → Setup → Setup
unfolding q1 q2
with_quorums config fz setup = record setup { q1 = q1 config fz; q2 = q2 config fz }

abbrev pub outputs : Key → List Paxos.Output → List Output
outputs k out = map of_instance (map (wrap k) out)

module _ {policy : Policy} where
  unfoldable pub init : Replica policy → Key → Replica policy
  init r k = elim (r.instances k) [
    | none ↦ record r { instances = put r.instances k (some (new_paxos r.db)) }
    | some p ↦ r
  ]

  -- The instance ran: its state and the store are what it left.
  abbrev pub keep : Replica policy → Key → Paxos × List Paxos.Output → Replica policy × List Output
  keep r k t = (record r { instances = put r.instances k (some t.0); db = t.0.db }, outputs k t.1)

module _ {policy : Policy} (setup : Setup) where
  -- none is the panic of a method of a nil instance.
  unfoldable pub run_instance :
      Replica policy → Key → Paxos.Message → Option (Replica policy × List Output)
  unfolding wrap
  run_instance r k m = elim (r.instances k) [
    | none ↦ none
    | some p ↦ elim (Paxos.Phase2.deliver setup (record p { db = r.db }) m) [
      | none ↦ none
      | some t ↦ some (keep r k t)
    ]
  ]

  unfoldable pub handle_leader_change :
      Replica policy → LeaderChange → Option (Replica policy × List Output)
  unfolding wrap
  handle_leader_change r m = elim (r.instances m.key) [
    | none ↦ none
    | some p ↦
        if m.ballot == p.ballot && bytes_eq m.to setup.own
        then some (keep r m.key (start_phase1 setup (record p { db = r.db })))
        else some (r, [])
  ]

  -- handlePrepare, handlePromise, handleAccept, handleAccepted, handleCommit and handleLeaderChange.
  unfoldable pub deliver : Replica policy → Message → Option (Replica policy × List Output)
  unfolding init run_instance handle_leader_change
  deliver r (keyed k m) = run_instance (if makes_instance m then init r k else r) k m
  deliver r (leader_change m) = handle_leader_change r m

  -- `p.Hit(m.NodeID)` and what follows.
  unfoldable pub hit : Replica policy → Key → Paxos → NodeId → Replica policy × List Output
  hit r k p id =
      let (state, to) = policy.hit (elim (r.policies k) [ none ↦ policy.fresh | some s ↦ s ]) id in
      (
        record r { policies = put r.policies k (some state) },
        if not (bytes_eq to []) && not (zone to == zone setup.own)
            then send_change to (record { key = k; to = to; from = setup.own; ballot = p.ballot })
              ∷ []
            else [],
      )

  -- handleRequest; `go r.Forward` is an output as any other.
  unfoldable pub handle_client : Bool → Replica policy → Request → Replica policy × List Output
  unfolding init wrap hit
  handle_client adaptive r m =
      let k = m.command.key in
      let r' = init r k in
      elim (r'.instances k) [
        | none ↦ (r', [])
        | some p ↦
            let t = handle_request setup (record p { db = r'.db }) m in
            let (r'', out) = keep r' k t in
            if adaptive
            then (if is_leader setup p || p.ballot == 0
                then (let (r3, outs) = hit r'' k t.0 m.node_id in (r3, out ++ outs))
                else (r', of_instance (Kpaxos.forward (ballot_id p.ballot) m) ∷ []))
            else (r'', out)
      ]
