-- ===== src/Paxos/Ballots.antt =====
-- paxos/paxos.go: the ballot of an instance in the handlers, and the promise of an acceptor.
use paxi.Common.{
  ◌+◌, ◌<◌, ◌≤◌, ◌^◌, ◌≡◌, inl, inr, true, some, List, [], ◌∷◌, arith, Bool-cases, Option-cases,
  put,
}
use paxi.Id.{NodeId}
use paxi.Ballot.{Ballot, ballot_id, counter}
use paxi.Ballot.Packing.{Fits}
use paxi.Ballot.Order.{next_grows}
use paxi.Quorum.{ack}
use paxi.Message.{Request}
use paxi.Paxos.{
  P1a, P1b, P2a, P2b, P3, Message, prepare, promise, accept, accepted, commit_to, Output, send,
  Entry, Paxos, Setup,
}
use paxi.Paxos.Exec.Run.{exec_any}
use paxi.Paxos.Update.{update-same}
use paxi.Paxos.Lead.Propose.{lead-Leads}
use paxi.Paxos.Phase1.{
  handle_request, handle_p1a, handle_p1b, step_down, collect_promise, update, max_slot,
}
use paxi.Paxos.Phase2.{
  handle_p2a, handle_p2b, handle_p3, commit_slot, collect_accepted, fall_back, deliver, accept_slot,
  commit_entry,
}

module _ (setup : Setup) where
  collect_promise-ballot :
      (p : Paxos) (id : NodeId) → (collect_promise setup p id).0.ballot ≡ p.ballot
  unfolding collect_promise
  collect_promise-ballot p id =
      let q = record p { quorum = ack p.quorum id } in
      let led = (lead-Leads setup q).0.same_ballot in
      elim (Bool-cases (setup.q1 (ack p.quorum id))) [ inl e ↦ rw e led | inr e ↦ rw e ]

  step_down-ballot : (p : Paxos) (b : Ballot) → p.ballot ≤ (step_down p b).0.ballot
  unfolding step_down
  step_down-ballot p b = ground arith

  handle_p1b-ballot : (p : Paxos) (m : P1b) → p.ballot ≤ (handle_p1b setup p m).0.ballot
  unfolding handle_p1b
  handle_p1b-ballot p m =
      let same = (update-same p m.log).0 in
      let down = step_down-ballot (update p m.log) m.ballot in
      let collected = collect_promise-ballot (step_down (update p m.log) m.ballot).0 m.id in
      ground arith

  handle_p1a-ballot :
      (p : Paxos) (m : P1a)
      → (p.ballot ≤ (handle_p1a setup p m).0.ballot) × (m.ballot ≤ (handle_p1a setup p m).0.ballot)
  unfolding handle_p1a
  handle_p1a-ballot p m = ground arith

  handle_p2a-ballot : (p : Paxos) (m : P2a) → p.ballot ≤ (handle_p2a setup p m).0.ballot
  unfolding handle_p2a accept_slot
  handle_p2a-ballot p m = ground arith

  fall_back-ballot : (p : Paxos) (b : Ballot) → p.ballot ≤ (fall_back setup p b).ballot
  unfolding fall_back
  fall_back-ballot p b = ground arith

  commit_slot-ballot :
      (p : Paxos) (m : P2b) (e : Entry) (p' : Paxos) (out : List Output)
      → commit_slot setup p m e ≡ some (p', out)
      → p'.ballot ≡ p.ballot
  unfolding commit_slot
  commit_slot-ballot p m e p' out h =
      let ran =
        exec_any (record p { log = put p.log m.slot (some (record e { commit = true })) }) in
      let same = ran.same_ballot in ground arith

  collect_accepted-ballot :
      (p : Paxos) (m : P2b) (e : Entry) (p' : Paxos) (out : List Output)
      → collect_accepted setup p m e ≡ some (p', out)
      → p'.ballot ≡ p.ballot
  unfolding collect_accepted
  collect_accepted-ballot p m e p' out h = elim (Option-cases e.quorum) [
    | inl none_yet ↦ ground arith
    | inr (q, has) ↦
        let committed = commit_slot-ballot p m (record e { quorum = some (ack q m.id) }) p' out in
        ground arith
  ]

  handle_p2b-ballot :
      (p : Paxos) (m : P2b) (p' : Paxos) (out : List Output)
      → handle_p2b setup p m ≡ some (p', out)
      → p.ballot ≤ p'.ballot
  unfolding handle_p2b
  handle_p2b-ballot p m p' out h = elim (Option-cases (p.log m.slot)) [
    | inl missing ↦ ground arith
    | inr (e, at_slot) ↦
        let fell = fall_back-ballot p m.ballot in
        let collected = collect_accepted-ballot (fall_back setup p m.ballot) m e p' out in
        ground arith
  ]

  handle_p3-ballot : (p : Paxos) (m : P3) → (handle_p3 setup p m).0.ballot ≡ p.ballot
  unfolding handle_p3
  handle_p3-ballot p m =
      let (e, out) = commit_entry (p.log m.slot) m in
      let p' = record p { slots = max_slot p.slots m.slot; log = put p.log m.slot (some e) } in
      let same = (exec_any p').same_ballot in ground arith

  -- No message makes an instance go back to a lower ballot, whatever the message says.
  pub deliver-ballot :
      (p : Paxos) (m : Message) (p' : Paxos) (out : List Output)
      → deliver setup p m ≡ some (p', out)
      → p.ballot ≤ p'.ballot
  unfolding deliver
  deliver-ballot p (prepare m) p' out h = ground (arith, handle_p1a-ballot p m)
  deliver-ballot p (promise m) p' out h = ground (arith, handle_p1b-ballot p m)
  deliver-ballot p (accept m) p' out h = ground (arith, handle_p2a-ballot p m)
  deliver-ballot p (accepted m) p' out h = handle_p2b-ballot p m p' out h
  deliver-ballot p (commit_to m) p' out h = ground (arith, handle_p3-ballot p m)

  handle_request-ballot :
      (p : Paxos) (r : Request)
      → counter p.ballot + 1 < 2 ^ 32
      → Fits setup.own
      → p.ballot ≤ (handle_request setup p r).0.ballot
  unfolding handle_request
  handle_request-ballot p r room fits = ground (arith, next_grows p.ballot setup.own room fits)

  -- What may happen to one instance: a message arrives, or a request while the counter of the ballot
  -- has room.
  pub data Step (p : Paxos) : Paxos → Type 0 where
    message :
        (m : Message) {p' : Paxos} {out : List Output}
        → deliver setup p m ≡ some (p', out)
        → Step p p'
    request : (r : Request) → counter p.ballot + 1 < 2 ^ 32 → Step p (handle_request setup p r).0

  pub data Steps (p : Paxos) : Paxos → Type 0 where
    here : Steps p p
    later : {q q' : Paxos} → Steps p q → Step q q' → Steps p q'

  Step-ballot : {p p' : Paxos} → Fits setup.own → Step p p' → p.ballot ≤ p'.ballot
  Step-ballot {p} {p'} fits (message m {out = out} h) = deliver-ballot p m p' out h
  Step-ballot {p} fits (request r room) = handle_request-ballot p r room fits

  Steps-ballot : {p p' : Paxos} → Fits setup.own → Steps p p' → p.ballot ≤ p'.ballot
  Steps-ballot fits here = omega arith
  Steps-ballot fits (later s st) = omega (arith, Steps-ballot fits s, Step-ballot fits st)

  -- An acceptor whose zone and node are below 2^16 keeps its promise: after it has handled a prepare
  -- for ballot `b`, and any steps since, an accept for a lower ballot changes nothing in it, and the
  -- answer carries a ballot that is not below `b`. The steps are messages, whatever they say, and
  -- client requests that come while the counter of the ballot is below 2^32 - 1, so that Next does
  -- not wrap around.
  pub promise_kept :
      (p : Paxos) (m : P1a) (p' : Paxos) (a : P2a)
      → Fits setup.own
      → Steps (handle_p1a setup p m).0 p'
      → a.ballot < m.ballot
      → (m.ballot ≤ p'.ballot)
        × (handle_p2a setup p' a ≡ (
          p',
          send
                (ballot_id a.ballot)
                (accepted (record { ballot = p'.ballot; id = setup.own; slot = a.slot }))
              ∷ [],
        ))
  unfolding handle_p2a
  promise_kept p m p' a fits s low =
      let promised = (handle_p1a-ballot p m).1 in
      let since = Steps-ballot fits s in (omega arith, ground arith)
