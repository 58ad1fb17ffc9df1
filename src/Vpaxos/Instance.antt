-- ===== src/Vpaxos/Instance.antt =====
-- vpaxos/paxos.go: the instance of a node, which runs phase 2 in the zone of its leader.
use paxi.Common.{
  ℕ, zero, suc, ◌-◌, Bool, true, false, not, ◌&&◌, ◌||◌, Option, none, some, List, [], ◌∷◌, ◌++◌,
  bytes_eq, ltb, leb, ◌==◌, if◌then◌else◌, put,
}
use paxi.Id.{NodeId, zone}
use paxi.Ballot.{Ballot, ballot_id}
use paxi.Config.{Config}
use paxi.Quorum.{Quorum, new_quorum, ack, reset, zone_majority}
use paxi.Db
use paxi.Db.{Value}
use paxi.Message.{Request}
use paxi.Paxos.{P2a, P2b, P3, Entry, Paxos}
use paxi.Paxos.Phase1.{max_slot}
pub mod Activate
pub mod Exec
use paxi.Vpaxos.{P1b, Output, send, multicast_zone, forward, reply, p2a, p2b, p3}

-- The structs `entry` and `paxos` have the fields of those of paxos/paxos.go, whose records stand for
-- them; `requests` is the field `pending`, and `slots` is `slot` and one.
-- The entry that the loop of exec goes on with: the one at `execute`, if it is committed.
unfoldable pub ready : Paxos → Option Entry
ready p = elim (p.log p.execute) [ none ↦ none | some e ↦ if e.commit then some e else none ]

-- One round of the loop on a committed entry.
unfoldable pub exec_round : Paxos → Entry → Paxos × List Output
exec_round p e =
    let (db, value) = Db.execute p.db e.command in
    elim e.request [
      | none ↦ (record p { db = db; execute = suc p.execute }, [])
      | some r ↦ (
        record p {
          db = db;
          log = put p.log p.execute (some (record e { request = none }));
          execute = suc p.execute;
        },
        reply r (record { command = e.command; value = value; properties = []; timestamp = 0 })
            ∷ [],
      )
    ]

-- exec, on fuel.
unfoldable pub exec_loop : ℕ → Paxos → Paxos × List Output
unfolding ready exec_round
exec_loop zero p = (p, [])
exec_loop (suc fuel) p = elim (ready p) [
  | none ↦ (p, [])
  | some e ↦
      let (p', out) = exec_round p e in let (p'', outs) = exec_loop fuel p' in (p'', out ++ outs)
]

-- The slots in use bound the rounds.
unfoldable pub exec : Paxos → Paxos × List Output
unfolding exec_loop
exec p = exec_loop (suc p.slots - p.execute) p

module _ (config : Config) (own : NodeId) where
  -- The rest of handleRequest, from `p.slot++` on.
  unfoldable pub propose : Paxos → Request → Paxos × List Output
  propose p m = (
    record p {
      slots = suc p.slots;
      log = put p.log p.slots (
          some (record {
            ballot = p.ballot;
            command = m.command;
            commit = false;
            request = some m;
            quorum = some (ack new_quorum own);
          }));
    },
    multicast_zone (zone own)
          (p2a (record { ballot = p.ballot; slot = p.slots; command = m.command }))
        ∷ [],
  )

  unfoldable pub handle_request : Paxos → Request → Paxos × List Output
  unfolding propose
  handle_request p m =
      if not p.active
      then (record p { requests = p.requests ++ m ∷ [] }, [])
      else (let (p', out) = propose p m in
          (
            p',
            (if not (bytes_eq (ballot_id p.ballot) own)
                  then forward (ballot_id p.ballot) m ∷ []
                  else [])
                ++ out,
          ))

  -- The loop over the pending requests.
  unfoldable pub handle_requests : Paxos → List Request → Paxos × List Output
  unfolding handle_request
  handle_requests p [] = (p, [])
  handle_requests p (m ∷ ms) =
      let (p', out) = handle_request p m in
      let (p'', outs) = handle_requests p' ms in (p'', out ++ outs)

  unfoldable pub handle_p1b : Paxos → P1b → Paxos × List Output
  unfolding handle_requests
  handle_p1b p m =
      if p.active || ltb m.ballot p.ballot
      then (p, [])
      else (let quorum = ack p.quorum m.id in
          if zone_majority config quorum
          then (let (p', out) =
                handle_requests (record p { quorum = reset quorum; active = true }) p.requests in
              (record p' { requests = [] }, out))
          else (record p { quorum = quorum }, []))

  unfoldable pub handle_p2a : Paxos → P2a → Paxos × List Output
  handle_p2a p m =
      let p' =
        if leb p.ballot m.ballot
        then record p {
          ballot = m.ballot;
          slots = max_slot p.slots m.slot;
          log = put p.log m.slot (
              some (record {
                ballot = m.ballot;
                command = m.command;
                commit = false;
                request = none;
                quorum = none;
              }));
        }
        else p in
      (
        p',
        send (ballot_id m.ballot) (p2b (record { ballot = p'.ballot; slot = m.slot; id = own }))
            ∷ [],
      )

  -- handleP2b from the zone majority on.
  unfoldable pub commit_slot : Paxos → P2b → Entry → Paxos × List Output
  unfolding exec
  commit_slot p m e =
      let (p', out) =
        exec (record p { log = put p.log m.slot (some (record e { commit = true })) }) in
      (
        p',
        multicast_zone (zone own)
              (p3 (record { ballot = m.ballot; slot = m.slot; command = e.command }))
            ∷ out,
      )

  -- A missing entry, and an acknowledgement for an entry without a quorum, panic.
  unfoldable pub handle_p2b : Paxos → P2b → Option (Paxos × List Output)
  unfolding commit_slot
  handle_p2b p m = elim (p.log m.slot) [
    | none ↦ none
    | some e ↦
        if ltb m.ballot e.ballot || e.commit
        then some (p, [])
        else (let p' = if ltb p.ballot m.ballot then record p { ballot = m.ballot } else p in
            if bytes_eq (ballot_id m.ballot) own && m.ballot == e.ballot
            then elim e.quorum [
              | none ↦ none
              | some q ↦
                  let e' = record e { quorum = some (ack q m.id) } in
                  if zone_majority config (ack q m.id)
                  then some (commit_slot p' m e')
                  else some (record p' { log = put p'.log m.slot (some e') }, [])
            ]
            else some (p', []))
  ]

  -- The entry of the slot, a new one if there is none.
  abbrev pub entry_or_new : Option Entry → Entry
  entry_or_new none = record {
    ballot = 0;
    command = record { key = 0; value = none; client_id = []; command_id = 0 };
    commit = false;
    request = none;
    quorum = none;
  }
  entry_or_new (some e) = e

  unfoldable pub handle_p3 : Paxos → P3 → Paxos × List Output
  unfolding exec
  handle_p3 p m = exec (record p {
    slots = max_slot p.slots m.slot;
    log =
        put p.log m.slot
          (some (record (entry_or_new (p.log m.slot)) { command = m.command; commit = true }));
  })
