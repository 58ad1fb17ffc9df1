-- ===== src/Kpaxos.antt =====
-- kpaxos/replica.go and kpaxos/msg.go: one Paxos instance for each key, all on the store of the
-- node, with messages that carry the key.
use paxi.Common.{
  ℕ, ◌^◌, Bool, true, false, Option, none, some, List, [], ◌∷◌, ◌&&◌, ◌||◌, ltb, leb, bytes_eq,
  if◌then◌else◌, put,
}
use mathlib.Core.List.{map}
use paxi.Id.{NodeId}
use paxi.Config.{Config}
use paxi.Db.{Key, Database}
use paxi.Message.{Request, Reply}
use paxi.Paxos.{
  P1a, P1b, P2a, P2b, P3, prepare, promise, accept, accepted, commit_to, Paxos, Setup, new_paxos,
}
use paxi.Paxos
use paxi.Paxos.Phase1.{handle_request}
use paxi.Paxos.Phase2
pub mod Keys

-- Prepare, Promise, Accept, Accepted and Commit: each is a Paxos message with its key.
pub data Message : Type 0 where
  keyed : Key → Paxos.Message → Message

-- The calls of the node. A message that the type switch of Broadcast or Send does not know, and a
-- message to a random quorum, goes out as it is.
pub data Output : Type 0 where
  broadcast : Message → Output
  broadcast_plain : Paxos.Message → Output
  send : NodeId → Message → Output
  send_plain : NodeId → Paxos.Message → Output
  multicast_quorum : ℕ → Paxos.Message → Output
  forward : NodeId → Request → Output
  reply : Request → Reply → Output

-- type Replica. The instances work on `db`; a field of theirs for it is replaced at each use.
pub record Replica : Type 0 where
  pub instances : Key → Option Paxos
  pub db : Database
  pub key : Key

-- Replica.Broadcast
unfoldable pub wrap_broadcast : Key → Paxos.Message → Output
wrap_broadcast k (prepare m) = broadcast (keyed k (prepare m))
wrap_broadcast k (accept m) = broadcast (keyed k (accept m))
wrap_broadcast k (commit_to m) = broadcast (keyed k (commit_to m))
wrap_broadcast k (promise m) = broadcast_plain (promise m)
wrap_broadcast k (accepted m) = broadcast_plain (accepted m)

-- Replica.Send
unfoldable pub wrap_send : Key → NodeId → Paxos.Message → Output
wrap_send k to (promise m) = send to (keyed k (promise m))
wrap_send k to (accepted m) = send to (keyed k (accepted m))
wrap_send k to (prepare m) = send_plain to (prepare m)
wrap_send k to (accept m) = send_plain to (accept m)
wrap_send k to (commit_to m) = send_plain to (commit_to m)

-- What the instance of the current key does to the outside, by the methods of the replica.
unfoldable pub wrap : Key → Paxos.Output → Output
unfolding wrap_broadcast wrap_send
wrap k (Paxos.broadcast m) = wrap_broadcast k m
wrap k (Paxos.multicast_quorum n m) = multicast_quorum n m
wrap k (Paxos.send to m) = wrap_send k to m
wrap k (Paxos.forward to m) = forward to m
wrap k (Paxos.reply q a) = reply q a

-- index; a key is a signed integer.
unfoldable pub index : Key → NodeId
index key =
    if leb (2 ^ 63) key || ltb key 200
    then b'1' ∷ b'.' ∷ b'1' ∷ []
    else (if leb 200 key && ltb key 400
        then b'2' ∷ b'.' ∷ b'1' ∷ []
        else (if leb 400 key && ltb key 600
            then b'3' ∷ b'.' ∷ b'1' ∷ []
            else (if leb 600 key && ltb key 800
                then b'4' ∷ b'.' ∷ b'1' ∷ []
                else b'5' ∷ b'.' ∷ b'1' ∷ [])))

-- The handlers of the messages that may come first make the instance.
abbrev pub makes_instance : Paxos.Message → Bool
makes_instance (prepare m) = true
makes_instance (accept m) = true
makes_instance (commit_to m) = true
makes_instance (promise m) = false
makes_instance (accepted m) = false

-- init
unfoldable pub init : Replica → Key → Replica
init r k = elim (r.instances k) [
  | none ↦ record r { instances = put r.instances k (some (new_paxos r.db)) }
  | some p ↦ r
]

-- The instance ran: its state and the store are what it left.
abbrev pub keep : Replica → Key → Paxos × List Paxos.Output → Replica × List Output
keep r k (p, out) =
    (record { instances = put r.instances k (some p); db = p.db; key = k }, map (wrap k) out)

module _ (setup : Setup) where
  -- none is the panic of a method of a nil instance.
  unfoldable pub run_instance : Replica → Key → Paxos.Message → Option (Replica × List Output)
  unfolding wrap
  run_instance r k m = elim (r.instances k) [
    | none ↦ none
    | some p ↦ elim (Paxos.Phase2.deliver setup (record p { db = r.db }) m) [
      | none ↦ none
      | some t ↦ some (keep r k t)
    ]
  ]

  -- handlePrepare, handlePromise, handleAccept, handleAccepted and handleCommit.
  unfoldable pub deliver : Replica → Message → Option (Replica × List Output)
  unfolding init run_instance
  deliver r (keyed k m) = run_instance (if makes_instance m then init r k else r) k m

  -- handleRequest; `go r.Forward` is an output as any other.
  unfoldable pub handle_client : Replica → Request → Replica × List Output
  unfolding init index wrap
  handle_client r m =
      let k = m.command.key in
      let r' = record (init r k) { key = k } in
      if bytes_eq (index k) setup.own
      then elim (r'.instances k) [
        | none ↦ (r', [])
        | some p ↦ keep r' k (handle_request setup (record p { db = r'.db }) m)
      ]
      else (r', forward (index k) m ∷ [])

  -- The state after messages in their order, none on a panic.
  unfoldable pub run : Replica → List Message → Option Replica
  unfolding deliver
  run r [] = some r
  run r (m ∷ ms) = elim (deliver r m) [ none ↦ none | some (r', out) ↦ run r' ms ]
