-- ===== src/Abd.antt =====
-- abd/replica.go and abd/msg.go: the ABD register. Every request takes a get phase, which asks for
-- versions, and a set phase, which writes one back. Versions and request numbers count up from 0;
-- their wrap-around after 2^63 steps is left out.
use paxi.Common.{
  ℕ, suc, ◌+◌, Bool, true, false, Option, none, some, List, [], ◌∷◌, ltb, if◌then◌else◌, put,
}
use paxi.Id.{NodeId}
use paxi.Config.{Config}
use paxi.Quorum.{Quorum, new_quorum, ack, majority}
use paxi.Db.{Key, Value, Command, Database, is_read, get, put_value}
use paxi.Message.{Request, Reply}
pub mod GetPhase
pub mod SetVersion
pub mod Answers

-- type state int
pub data Phase : Type 0 where
  get_phase : Phase
  set_phase : Phase
  done : Phase

-- type entry
pub record Entry : Type 0 where
  pub request : Request
  pub state : Phase
  pub get_quorum : Quorum
  pub set_quorum : Quorum
  pub value : Value
  pub version : ℕ

-- type Replica, with the database of its node.
pub record Replica : Type 0 where
  pub db : Database
  pub cid : ℕ
  pub log : ℕ → Option Entry
  pub version : Key → ℕ

-- NewReplica, less the registration of the handlers.
unfoldable pub new_replica : Database → Replica
new_replica db = record { db = db; cid = 0; log = λ c. none; version = λ k. 0 }

pub record Get : Type 0 where
  pub id : NodeId
  pub cid : ℕ
  pub key : Key

pub record GetReply : Type 0 where
  pub id : NodeId
  pub cid : ℕ
  pub key : Key
  pub value : Value
  pub version : ℕ

pub record Set : Type 0 where
  pub id : NodeId
  pub cid : ℕ
  pub key : Key
  pub value : Value
  pub version : ℕ

pub record SetReply : Type 0 where
  pub id : NodeId
  pub cid : ℕ
  pub key : Key

-- The messages a replica is registered for.
pub data Message : Type 0 where
  on_request : Request → Message
  on_get : Get → Message
  on_get_reply : GetReply → Message
  on_set : Set → Message
  on_set_reply : SetReply → Message

-- What a handler sends, and the answer to a client.
pub data Output : Type 0 where
  broadcast_get : Get → Output
  broadcast_set : Set → Output
  send_get_reply : NodeId → GetReply → Output
  send_set_reply : NodeId → SetReply → Output
  answer : Request → Reply → Output

abbrev pub get_state : Phase → Bool
get_state get_phase = true
get_state set_phase = false
get_state done = false

abbrev pub set_state : Phase → Bool
set_state get_phase = false
set_state set_phase = true
set_state done = false

-- Put and the version of the key with it.
unfoldable pub store : Replica → Key → Value → ℕ → Replica
store r k v version = record r { db = put_value r.db k v; version = put r.version k version }

-- The update by a newer version of handleGetReply.
unfoldable pub take_newer : Replica → Entry → GetReply → Replica × Entry
unfolding store
take_newer r e m =
    if ltb e.version m.version
    then (store r m.key m.value m.version, record e { value = m.value; version = m.version })
    else (r, e)

module _ (config : Config) (own : NodeId) where
  unfoldable pub handle_request : Replica → Request → Replica × List Output
  handle_request r m =
      let k = m.command.key in
      let cid = suc r.cid in
      let e : Entry = record {
        request = m;
        state = get_phase;
        get_quorum = ack new_quorum own;
        set_quorum = new_quorum;
        value = get r.db k;
        version = r.version k;
      } in
      (
        record r { cid = cid; log = put r.log cid (some e) },
        broadcast_get (record { id = own; cid = cid; key = k }) ∷ [],
      )

  unfoldable pub handle_get : Replica → Get → Replica × List Output
  handle_get r m = (
    r,
    send_get_reply m.id (record {
      id = own;
      cid = m.cid;
      key = m.key;
      value = get r.db m.key;
      version = r.version m.key;
    })
        ∷ [],
  )

  unfoldable pub handle_set : Replica → Set → Replica × List Output
  unfolding store
  handle_set r m = (
    if ltb (r.version m.key) m.version then store r m.key m.value m.version else r,
    send_set_reply m.id (record { id = own; cid = m.cid; key = m.key }) ∷ [],
  )

  -- The set phase begins: a read writes back what it found, a write its own value, one version on.
  unfoldable pub begin_set : Replica → Entry → GetReply → Replica × Entry × List Output
  unfolding store
  begin_set r e m =
      let c = e.request.command in
      let e' = record e { state = set_phase; set_quorum = ack e.set_quorum own } in
      if is_read c
      then (
        r,
        e',
        broadcast_set
              (record { id = own; cid = m.cid; key = m.key; value = e.value; version = e.version })
            ∷ [],
      )
      else (
        record r {
          db = put_value r.db c.key c.value;
          version = put r.version m.key (suc e.version);
        },
        record e' { value = c.value; version = suc e.version },
        broadcast_set (record {
          id = own;
          cid = m.cid;
          key = c.key;
          value = c.value;
          version = suc e.version;
        })
            ∷ [],
      )

  -- handleGetReply on the entry.
  unfoldable pub collect_get : Replica → Entry → GetReply → Replica × Entry × List Output
  unfolding take_newer begin_set
  collect_get r e m =
      if get_state e.state
      then (let (r1, e1) = take_newer r e m in
          let e2 = record e1 { get_quorum = ack e1.get_quorum m.id } in
          if majority config e2.get_quorum then begin_set r1 e2 m else (r1, e2, []))
      else (r, e, [])

  -- A number that is not in the log panics.
  unfoldable pub handle_get_reply : Replica → GetReply → Option (Replica × List Output)
  unfolding collect_get
  handle_get_reply r m = elim (r.log m.cid) [
    | none ↦ none
    | some e ↦
        let (r', e', out) = collect_get r e m in
        some (record r' { log = put r'.log m.cid (some e') }, out)
  ]

  -- handleSetReply on the entry.
  unfoldable pub collect_set : Entry → SetReply → Entry × List Output
  collect_set e m =
      if set_state e.state
      then (let e' = record e { set_quorum = ack e.set_quorum m.id } in
          if majority config e'.set_quorum
          then (
            record e' { state = done },
            answer e.request (record {
              command = e.request.command;
              value = if is_read e.request.command then e.value else none;
              properties = [];
              timestamp = 0;
            })
                ∷ [],
          )
          else (e', []))
      else (e, [])

  unfoldable pub handle_set_reply : Replica → SetReply → Option (Replica × List Output)
  unfolding collect_set
  handle_set_reply r m = elim (r.log m.cid) [
    | none ↦ none
    | some e ↦
        let (e', out) = collect_set e m in some (record r { log = put r.log m.cid (some e') }, out)
  ]

  unfoldable pub deliver : Replica → Message → Option (Replica × List Output)
  unfolding handle_request handle_get handle_set handle_get_reply handle_set_reply
  deliver r (on_request m) = some (handle_request r m)
  deliver r (on_get m) = some (handle_get r m)
  deliver r (on_get_reply m) = handle_get_reply r m
  deliver r (on_set m) = some (handle_set r m)
  deliver r (on_set_reply m) = handle_set_reply r m

  -- The state after a sequence of messages, none on a panic.
  unfoldable pub run : Replica → List Message → Option Replica
  unfolding deliver
  run r [] = some r
  run r (x ∷ xs) = elim (deliver r x) [ none ↦ none | some (r', out) ↦ run r' xs ]
