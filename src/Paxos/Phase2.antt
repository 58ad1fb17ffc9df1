-- ===== src/Paxos/Phase2.antt =====
-- paxos/paxos.go: phase 2 and commit, and the dispatch of a message to its handler, which
-- paxos/replica.go registers.
use paxi.Common.{
  true, false, not, ◌&&◌, ◌||◌, Option, none, some, List, [], ◌∷◌, ◌++◌, bytes_eq, ltb, leb, ◌==◌,
  if◌then◌else◌, put,
}
use paxi.Ballot.{Ballot, ballot_id}
use paxi.Quorum.{ack}
use paxi.Db.{Command, equal}
use paxi.Message.{Request}
use paxi.Paxos.{
  P2a, P2b, P3, Message, prepare, promise, accept, accepted, commit_to, Output, broadcast, send,
  forward, reply, Entry, Paxos, Setup,
}
use paxi.Paxos.Exec.{exec}
use paxi.Paxos.Phase1.{max_slot, handle_p1a, handle_p1b}

-- An entry whose request is for another command than `c` gives it up to the leader of `b`.
unfoldable pub give_up : Entry → Command → Ballot → Entry × List Output
give_up e c b = elim e.request [
  | none ↦ (e, [])
  | some r ↦
      if not (equal e.command c)
      then (record e { request = none }, forward (ballot_id b) r ∷ [])
      else (e, [])
]

-- What HandleP2a does to the entry of the slot.
unfoldable pub accept_entry : Option Entry → P2a → Option Entry × List Output
accept_entry none m = (
  some (record {
    ballot = m.ballot;
    command = m.command;
    commit = false;
    request = none;
    quorum = none;
  }),
  [],
)
accept_entry (some e) m =
    let (e', out) = give_up e m.command m.ballot in
    if not e.commit && ltb e.ballot m.ballot
    then (some (record e' { command = m.command; ballot = m.ballot }), out)
    else (some e, [])

-- What HandleP3 does to the entry of the slot; a new entry starts with ballot 0.
unfoldable pub commit_entry : Option Entry → P3 → Entry × List Output
commit_entry none m =
    (record { ballot = 0; command = m.command; commit = true; request = none; quorum = none }, [])
commit_entry (some e) m =
    let (e', out) = give_up e m.command m.ballot in
    (record e' { command = m.command; commit = true }, out)

-- The reply when ReplyWhenCommit is set.
unfoldable pub commit_reply : Request → Output
commit_reply r =
    reply r (record { command = r.command; value = none; properties = []; timestamp = r.timestamp })

module _ (setup : Setup) where
  -- What HandleP2a changes if the ballot is not below the node's.
  unfoldable pub accept_slot : Paxos → P2a → Paxos × List Output
  accept_slot p m =
      let (o, out) = accept_entry (p.log m.slot) m in
      (
        record p {
          ballot = m.ballot;
          active = false;
          slots = max_slot p.slots m.slot;
          log = put p.log m.slot o;
        },
        out,
      )

  unfoldable pub handle_p2a : Paxos → P2a → Paxos × List Output
  handle_p2a p m =
      let (p', out) = if leb p.ballot m.ballot then accept_slot p m else (p, []) in
      (
        p',
        out
            ++ send (ballot_id m.ballot)
                (accepted (record { ballot = p'.ballot; id = setup.own; slot = m.slot }))
              ∷ [],
      )

  -- The entry `e`, whose quorum holds, is committed.
  unfoldable pub commit_slot : Paxos → P2b → Entry → Option (Paxos × List Output)
  commit_slot p m e =
      let p' = record p { log = put p.log m.slot (some (record e { commit = true })) } in
      let announce =
        broadcast (commit_to (record { ballot = m.ballot; slot = m.slot; command = e.command })) in
      if setup.reply_when_commit
      then elim e.request [ none ↦ none | some r ↦ some (p', announce ∷ commit_reply r ∷ []) ]
      else (let (p'', out) = exec p' in some (p'', announce ∷ out))

  -- The ack message of HandleP2b, for the quorum of the entry.
  unfoldable pub collect_accepted : Paxos → P2b → Entry → Option (Paxos × List Output)
  collect_accepted p m e = elim e.quorum [
    | none ↦ none
    | some q ↦
        let e' = record e { quorum = some (ack q m.id) } in
        if setup.q2 (ack q m.id)
        then commit_slot p m e'
        else some (record p { log = put p.log m.slot (some e') }, [])
  ]

  -- The reject message of HandleP2b, which unlike HandleP1b forwards no requests.
  unfoldable pub fall_back : Paxos → Ballot → Paxos
  fall_back p b = if ltb p.ballot b then record p { ballot = b; active = false } else p

  -- A missing entry is a nil pointer.
  unfoldable pub handle_p2b : Paxos → P2b → Option (Paxos × List Output)
  handle_p2b p m = elim (p.log m.slot) [
    | none ↦ none
    | some e ↦
        if ltb m.ballot e.ballot || e.commit
        then some (p, [])
        else if bytes_eq (ballot_id m.ballot) setup.own && m.ballot == e.ballot
        then collect_accepted (fall_back p m.ballot) m e
        else some (fall_back p m.ballot, [])
  ]

  unfoldable pub handle_p3 : Paxos → P3 → Paxos × List Output
  handle_p3 p m =
      let (e, out) = commit_entry (p.log m.slot) m in
      let p' = record p { slots = max_slot p.slots m.slot; log = put p.log m.slot (some e) } in
      if setup.reply_when_commit
      then (p', out ++ elim e.request [ none ↦ [] | some r ↦ commit_reply r ∷ [] ])
      else (let (p'', out') = exec p' in (p'', out ++ out'))

  -- The handler that is registered for the type of the message.
  unfoldable pub deliver : Paxos → Message → Option (Paxos × List Output)
  deliver p (prepare m) = some (handle_p1a setup p m)
  deliver p (promise m) = some (handle_p1b setup p m)
  deliver p (accept m) = some (handle_p2a p m)
  deliver p (accepted m) = handle_p2b p m
  deliver p (commit_to m) = some (handle_p3 p m)
