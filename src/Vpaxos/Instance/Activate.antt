-- ===== src/Vpaxos/Instance/Activate.antt =====
-- What vpaxos/paxos.go does with the requests that waited for phase 1.
use paxi.Common.{
  ℕ, zero, suc, ◌+◌, ◌<◌, ◌≤◌, ◌≡◌, refl, ap, ◌∙◌, true, false, none, some, List, [], ◌∷◌, ◌++◌,
  bytes_eq, bytes_eq_self, ==_self, ltb, ◌==◌, length, get_elem?, arith,
}
use paxi.Id.{NodeId, zone}
use paxi.Ballot.{Ballot, ballot_id}
use paxi.Config.{Config}
use paxi.Quorum.{new_quorum, ack, reset, zone_majority}
use paxi.Message.{Request}
use paxi.Paxos.{Entry, Paxos}
use paxi.Vpaxos.{P1b, Output, multicast_zone, p2a}
use paxi.Vpaxos.Instance.{propose, handle_request, handle_requests, handle_p1b}

-- The entry of a proposed request.
abbrev pub proposal : NodeId → Ballot → Request → Entry
proposal own b m = record {
  ballot = b;
  command = m.command;
  commit = false;
  request = some m;
  quorum = some (ack new_quorum own);
}

-- The accept messages for requests in the slots from `s` on.
abbrev pub accepts : NodeId → Ballot → ℕ → List Request → List Output
accepts own b s [] = []
accepts own b s (m ∷ ms) =
    multicast_zone (zone own) (p2a (record { ballot = b; slot = s; command = m.command }))
    ∷ accepts own b (suc s) ms

-- The requests are proposed in their order, in the slots after those in use.
pub record Proposes (own : NodeId) (p : Paxos) (ms : List Request) (p' : Paxos) (out : List Output)
    : Type 0 where
  pub slots : p'.slots ≡ p.slots + length ms
  pub placed :
      (i : ℕ) (m : Request)
      → get_elem? ms i ≡ some m
      → p'.log (p.slots + i) ≡ some (proposal own p.ballot m)
  pub before : (s : ℕ) → s < p.slots → p'.log s ≡ p.log s
  pub sent : out ≡ accepts own p.ballot p.slots ms
  pub same_ballot : p'.ballot ≡ p.ballot
  pub same_active : p'.active ≡ p.active
  pub same_execute : p'.execute ≡ p.execute
  pub same_db : p'.db ≡ p.db
  pub same_quorum : p'.quorum ≡ p.quorum

module _ (config : Config) (own : NodeId) where
  handle_request-propose :
      (p : Paxos) (m : Request)
      → p.active ≡ true
      → ballot_id p.ballot ≡ own
      → handle_request config own p m ≡ propose config own p m
  unfolding handle_request
  handle_request-propose p m active leads =
      let own_ballot : bytes_eq (ballot_id p.ballot) own ≡ true =
        ap (λ i. bytes_eq i own) leads ∙ bytes_eq_self own in
      rw (active, own_ballot) refl

  propose_lem :
      (p : Paxos) (m : Request)
      → ((propose config own p m).0.slots ≡ suc p.slots)
        × ((propose config own p m).0.active ≡ p.active)
        × ((propose config own p m).0.ballot ≡ p.ballot)
  unfolding propose
  propose_lem p m = (refl, refl, refl)

  -- A proposal, followed by those of further requests.
  propose-Proposes :
      (p : Paxos) (m : Request) (ms : List Request) (p' : Paxos) (out : List Output)
      → Proposes own (propose config own p m).0 ms p' out
      → Proposes own p (m ∷ ms) p' ((propose config own p m).1 ++ out)
  unfolding propose
  propose-Proposes p m ms p' out rest = record {
    slots = omega (arith, rest.slots);
    placed = placed_at;
    before = λ s h.
        let apart : (p.slots == s) ≡ false = ground (arith, h) in
        rest.before s (omega (arith, h)) ∙ rw apart refl;
    sent =
        ap
          (λ l.
            multicast_zone (zone own)
              (p2a (record { ballot = p.ballot; slot = p.slots; command = m.command }))
            ∷ l)
          rest.sent;
    same_ballot = rest.same_ballot;
    same_active = rest.same_active;
    same_execute = rest.same_execute;
    same_db = rest.same_db;
    same_quorum = rest.same_quorum;
  }
    where
      placed_at :
          (i : ℕ) (r : Request)
          → get_elem? (m ∷ ms) i ≡ some r
          → p'.log (p.slots + i) ≡ some (proposal own p.ballot r)
      placed_at zero r h =
          let here : p.slots + 0 ≡ p.slots = omega arith in
          ap p'.log here
          ∙ (rest.before p.slots (omega arith)
              ∙ (rw (==_self p.slots)
                  (ap (λ o. elim o [ none ↦ none | some x ↦ some (proposal own p.ballot x) ]) h)))
      placed_at (suc i) r h =
          let shift : p.slots + suc i ≡ suc p.slots + i = omega arith in
          ap p'.log shift ∙ rest.placed i r h

  handle_requests-Proposes :
      (p : Paxos) (ms : List Request)
      → p.active ≡ true
      → ballot_id p.ballot ≡ own
      → Proposes own p ms (handle_requests config own p ms).0 (handle_requests config own p ms).1
  unfolding handle_requests
  handle_requests-Proposes p [] active leads = record {
    slots = omega arith;
    placed = λ i m h. absurd (ground arith);
    before = λ s h. refl;
    sent = refl;
    same_ballot = refl;
    same_active = refl;
    same_execute = refl;
    same_db = refl;
    same_quorum = refl;
  }
  handle_requests-Proposes p (m ∷ ms) active leads =
      let p1 = (propose config own p m).0 in
      let (first, same_active, same_ballot) = propose_lem p m in
      let rest =
        handle_requests-Proposes p1 ms (same_active ∙ active) (ap ballot_id same_ballot ∙ leads) in
      rw (handle_request-propose p m active leads) (propose-Proposes p m ms _ _ rest)

  Proposes-cleared :
      (p : Paxos) (ms : List Request) (p' : Paxos) (out : List Output)
      → Proposes own p ms p' out
      → Proposes own p ms (record p' { requests = [] }) out
  Proposes-cleared p ms p' out h = record {
    slots = h.slots;
    placed = h.placed;
    before = h.before;
    sent = h.sent;
    same_ballot = h.same_ballot;
    same_active = h.same_active;
    same_execute = h.same_execute;
    same_db = h.same_db;
    same_quorum = h.same_quorum;
  }

  -- When the promise that makes a zone majority arrives at the node of the ballot, the node becomes
  -- active and proposes the requests that waited, in their order and in the slots after those in
  -- use, and none waits any more.
  pub handle_p1b-Proposes :
      (p : Paxos) (m : P1b)
      → p.active ≡ false
      → p.ballot ≤ m.ballot
      → ballot_id p.ballot ≡ own
      → zone_majority config (ack p.quorum m.id) ≡ true
      → let p1 = record p { quorum = reset (ack p.quorum m.id); active = true } in
        Proposes own p1 p.requests
          (record (handle_p1b config own p m).0 { requests = [] })
          (handle_p1b config own p m).1
        × ((handle_p1b config own p m).0.requests ≡ [])
  unfolding handle_p1b
  handle_p1b-Proposes p m idle new leads enough =
      let older : ltb m.ballot p.ballot ≡ false = ground arith in
      let p1 = record p { quorum = reset (ack p.quorum m.id); active = true } in
      rw (idle, older, enough)
        (
          Proposes-cleared p1 p.requests _ _ (handle_requests-Proposes p1 p.requests refl leads),
          refl,
        )
