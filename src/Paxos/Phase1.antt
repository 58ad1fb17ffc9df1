-- ===== src/Paxos/Phase1.antt =====
-- paxos/paxos.go: requests, phase 1, and how a new leader proposes, in the order of the file.
use paxi.Common.{
  ℕ, zero, suc, ◌+◌, ◌-◌, ◌/◌, Bool, true, false, not, ◌&&◌, ◌||◌, Option, none, some, List, [],
  ◌∷◌, ◌++◌, bytes_eq, ltb, ◌==◌, if◌then◌else◌, put,
}
use mathlib.Core.List.{map}
use paxi.Id.{NodeId}
use paxi.Ballot.{Ballot, ballot_id, next}
use paxi.Quorum.{new_quorum, ack, reset}
use paxi.Message.{Request}
use paxi.Paxos.{
  P1a, CommandBallot, P1b, prepare, promise, accept, Output, broadcast, multicast_quorum, send,
  forward, Entry, Paxos, Setup,
}

-- paxi.Max of the slot and another one, for a slot that is kept as one more.
abbrev pub max_slot : ℕ → ℕ → ℕ
max_slot slots s = if ltb slots (suc s) then suc s else slots

-- Paxos.forward: the pending requests go to the leader of the current ballot.
unfoldable pub forward_requests : Paxos → Paxos × List Output
forward_requests p =
    (record p { requests = [] }, map (λ r. forward (ballot_id p.ballot) r) p.requests)

-- `for s := p.execute; s <= p.slot; s++ { … }` of HandleP1a, for `k` slots from slot `s` on.
unfoldable pub uncommitted : (ℕ → Option Entry) → ℕ → ℕ → List (ℕ × CommandBallot)
uncommitted log s zero = []
uncommitted log s (suc k) =
    let rest = uncommitted log (suc s) k in
    elim (log s) [
      | none ↦ rest
      | some e ↦
          if e.commit then rest else (s, record { command = e.command; ballot = e.ballot }) ∷ rest
    ]

-- One round of the loop of `update`.
unfoldable pub update_entry : Paxos → ℕ → CommandBallot → Paxos
update_entry p s cb = record p {
  slots = max_slot p.slots s;
  log = elim (p.log s) [
    | none ↦ put p.log s (
        some (record {
          ballot = cb.ballot;
          command = cb.command;
          commit = false;
          request = none;
          quorum = none;
        }))
    | some e ↦
        if not e.commit && ltb e.ballot cb.ballot
        then put p.log s (some (record e { ballot = cb.ballot; command = cb.command }))
        else p.log
  ];
}

unfoldable pub update : Paxos → List (ℕ × CommandBallot) → Paxos
update p [] = p
update p ((s, cb) ∷ scb) = update (update_entry p s cb) scb

-- The reject message of HandleP1b.
unfoldable pub step_down : Paxos → Ballot → Paxos × List Output
unfolding forward_requests
step_down p b =
    if ltb p.ballot b then forward_requests (record p { ballot = b; active = false }) else (p, [])

module _ (setup : Setup) where
  unfoldable pub is_leader : Paxos → Bool
  is_leader p = p.active || bytes_eq (ballot_id p.ballot) setup.own

  -- Paxos.P1a
  unfoldable pub start_phase1 : Paxos → Paxos × List Output
  start_phase1 p =
      if p.active
      then (p, [])
      else (let b = next p.ballot setup.own in
          (
            record p { ballot = b; quorum = ack (reset p.quorum) setup.own },
            broadcast (prepare (record { ballot = b })) ∷ [],
          ))

  -- Paxos.P2a
  unfoldable pub start_phase2 : Paxos → Request → Paxos × List Output
  start_phase2 p r =
      let m = accept (record { ballot = p.ballot; slot = p.slots; command = r.command }) in
      (
        record p {
          slots = suc p.slots;
          log = put p.log p.slots (
              some (record {
                ballot = p.ballot;
                command = r.command;
                commit = false;
                request = some r;
                quorum = some (ack new_quorum setup.own);
              }));
        },
        (if setup.thrifty then multicast_quorum (setup.n / 2 + 1) m else broadcast m) ∷ [],
      )

  unfoldable pub handle_request : Paxos → Request → Paxos × List Output
  unfolding start_phase1 start_phase2
  handle_request p r =
      if not p.active
      then (let p' = record p { requests = p.requests ++ r ∷ [] } in
          if not (bytes_eq (ballot_id p.ballot) setup.own) then start_phase1 p' else (p', []))
      else start_phase2 p r

  unfoldable pub handle_p1a : Paxos → P1a → Paxos × List Output
  unfolding forward_requests
  handle_p1a p m =
      let (p', out) =
        if ltb p.ballot m.ballot
        then forward_requests (record p { ballot = m.ballot; active = false })
        else (p, []) in
      let l = uncommitted p'.log p'.execute (p'.slots - p'.execute) in
      (
        p',
        out
            ++ send (ballot_id m.ballot)
                (promise (record { ballot = p'.ballot; id = setup.own; log = l }))
              ∷ [],
      )

  -- The loop of HandleP1b that proposes the uncommitted entries again.
  unfoldable pub repropose : Ballot → (ℕ → Option Entry) → ℕ → ℕ → (ℕ → Option Entry) × List Output
  repropose ballot log i zero = (log, [])
  repropose ballot log i (suc k) = elim (log i) [
    | none ↦ repropose ballot log (suc i) k
    | some e ↦ elim e.commit [
      | true ↦ repropose ballot log (suc i) k
      | false ↦
          let e' = record e { ballot = ballot; quorum = some (ack new_quorum setup.own) } in
          let (log', out) = repropose ballot (put log i (some e')) (suc i) k in
          (
            log',
            broadcast (accept (record { ballot = ballot; slot = i; command = e.command })) ∷ out,
          )
    ]
  ]

  -- `for _, req := range p.requests { p.P2a(req) }`
  unfoldable pub propose : Paxos → List Request → Paxos × List Output
  unfolding start_phase2
  propose p [] = (p, [])
  propose p (r ∷ rs) =
      let (p1, out1) = start_phase2 p r in let (p2, out2) = propose p1 rs in (p2, out1 ++ out2)

  -- What HandleP1b does once phase 1 has its quorum.
  unfoldable pub lead : Paxos → Paxos × List Output
  lead p =
      let (log', out) = repropose p.ballot p.log p.execute (p.slots - p.execute) in
      let (p', out') = propose (record p { active = true; log = log' }) p.requests in
      (record p' { requests = [] }, out ++ out')

  -- The ack message of HandleP1b.
  unfoldable pub collect_promise : Paxos → NodeId → Paxos × List Output
  collect_promise p id =
      let p' = record p { quorum = ack p.quorum id } in
      if setup.q1 p'.quorum then lead p' else (p', [])

  unfoldable pub handle_p1b : Paxos → P1b → Paxos × List Output
  handle_p1b p m =
      if ltb m.ballot p.ballot || p.active
      then (p, [])
      else (let (p1, out1) = step_down (update p m.log) m.ballot in
          let (p2, out2) =
            if bytes_eq (ballot_id m.ballot) setup.own && m.ballot == p1.ballot
            then collect_promise p1 m.id
            else (p1, []) in
          (p2, out1 ++ out2))
