-- ===== src/Paxos/Lead/Propose.antt =====
-- paxos/paxos.go: P2a for each pending request, and all of what a new leader does.
use mathlib.Core.List.{map}
use paxi.Common.{
  ℕ, zero, suc, ◌+◌, ◌-◌, ◌/◌, ◌<◌, ◌≤◌, ◌≡◌, refl, ◌∙◌, ◌⊎◌, true, false, some, List, [], ◌∷◌,
  ◌++◌, if◌then◌else◌, arith, length, get_elem?,
}
use paxi.Ballot.{Ballot}
use paxi.Quorum.{new_quorum, ack}
use paxi.Message.{Request}
use paxi.Paxos.{Message, Output, broadcast, multicast_quorum, Entry, Paxos, Setup}
use paxi.Paxos.Phase1.{propose, repropose, start_phase2, lead, uncommitted}
use paxi.Paxos.Lead.{take_over, repropose-log, repropose-out, announce}

-- Nothing but the log and the next slot differs.
pub record SameRest (p p' : Paxos) : Type 0 where
  pub same_ballot : p'.ballot ≡ p.ballot
  pub same_execute : p'.execute ≡ p.execute
  pub same_active : p'.active ≡ p.active
  pub same_quorum : p'.quorum ≡ p.quorum
  pub same_requests : p'.requests ≡ p.requests
  pub same_db : p'.db ≡ p.db

module _ (setup : Setup) where
  -- The entry of a command that the node proposes.
  abbrev pub proposal : Ballot → Request → Entry
  proposal b r = record {
    ballot = b;
    command = r.command;
    commit = false;
    request = some r;
    quorum = some (ack new_quorum setup.own);
  }

  pub propose-SameRest : (p : Paxos) (rs : List Request) → SameRest p (propose setup p rs).0
  unfolding propose
  propose-SameRest p [] = record {
    same_ballot = refl;
    same_execute = refl;
    same_active = refl;
    same_quorum = refl;
    same_requests = refl;
    same_db = refl;
  }
  propose-SameRest p (r ∷ rs) =
      let rest = propose-SameRest (start_phase2 setup p r).0 rs in
      record {
        same_ballot = rest.same_ballot;
        same_execute = rest.same_execute;
        same_active = rest.same_active;
        same_quorum = rest.same_quorum;
        same_requests = rest.same_requests;
        same_db = rest.same_db;
      }

  pub propose-slots :
      (p : Paxos) (rs : List Request) → (propose setup p rs).0.slots ≡ p.slots + length rs
  unfolding propose
  propose-slots p [] = omega arith
  propose-slots p (r ∷ rs) = omega (arith, propose-slots (start_phase2 setup p r).0 rs)

  pub propose_outside :
      (p : Paxos) (rs : List Request) (s : ℕ)
      → (s < p.slots) ⊎ (p.slots + length rs ≤ s)
      → (propose setup p rs).0.log s ≡ p.log s
  unfolding propose
  propose_outside p [] s h = refl
  propose_outside p (r ∷ rs) s h =
      let rest = propose_outside (start_phase2 setup p r).0 rs s (omega arith) in
      rest ∙ ground arith

  pub propose_inside :
      (p : Paxos) (rs : List Request) (i : ℕ) (r : Request)
      → get_elem? rs i ≡ some r
      → (propose setup p rs).0.log (p.slots + i) ≡ some (proposal p.ballot r)
  unfolding propose
  propose_inside p [] i r h = cc
  propose_inside p (q ∷ rs) zero r h =
      let rest = propose_outside (start_phase2 setup p q).0 rs (p.slots + 0) (omega arith) in
      rest ∙ ground arith
  propose_inside p (q ∷ rs) (suc i) r h =
      let rest = propose_inside (start_phase2 setup p q).0 rs i r h in
      let there : p.slots + suc i ≡ suc p.slots + i = omega arith in rw there rest

  -- The accept message for each of the requests, which get consecutive slots.
  pub accepts_for : Ballot → ℕ → List Request → List Output
  accepts_for b s [] = []
  accepts_for b s (r ∷ rs) =
      let m = Message.accept (record { ballot = b; slot = s; command = r.command }) in
      (if setup.thrifty then multicast_quorum (setup.n / 2 + 1) m else broadcast m)
      ∷ accepts_for b (suc s) rs

  propose-out :
      (p : Paxos) (rs : List Request) → (propose setup p rs).1 ≡ accepts_for p.ballot p.slots rs
  unfolding propose accepts_for
  propose-out p [] = refl
  propose-out p (r ∷ rs) = rw (propose-out (start_phase2 setup p r).0 rs)

  -- What a new leader's instance is, slot by slot.
  pub record Leads (p p' : Paxos) : Type 0 where
    pub active : p'.active ≡ true
    pub no_requests : p'.requests ≡ []
    pub same_ballot : p'.ballot ≡ p.ballot
    pub same_execute : p'.execute ≡ p.execute
    pub same_db : p'.db ≡ p.db
    pub same_quorum : p'.quorum ≡ p.quorum
    pub slots_used : p'.slots ≡ p.slots + length p.requests
    pub executed : (s : ℕ) → s < p.execute → s < p.slots → p'.log s ≡ p.log s
    pub taken_over :
        (s : ℕ) → p.execute ≤ s → s < p.slots → p'.log s ≡ take_over setup p.ballot (p.log s)
    pub proposed :
        (i : ℕ) (r : Request)
        → get_elem? p.requests i ≡ some r
        → p'.log (p.slots + i) ≡ some (proposal p.ballot r)
    pub above : (s : ℕ) → p.slots + length p.requests ≤ s → p'.log s ≡ p.log s

  -- A new leader takes over every entry in the slots in use from `execute` on that is not committed,
  -- under its ballot and with a quorum of its own; a slot without an entry among them stays empty,
  -- and nothing is proposed in it. It proposes the pending requests in consecutive slots behind the
  -- slots in use, and leaves alone, of the slots in use, the committed ones and those below `execute`. It broadcasts
  -- an accept for each entry taken over, and sends one for each request, by a broadcast or, when
  -- Thrifty is configured, to a quorum; it sends no other message.
  pub lead-Leads :
      (p : Paxos)
      → Leads p (lead setup p).0
        × ((lead setup p).1
            ≡ map (announce setup p.ballot) (uncommitted p.log p.execute (p.slots - p.execute))
              ++ accepts_for p.ballot p.slots p.requests)
  unfolding lead
  lead-Leads p = (
    record {
      active = rest.same_active;
      no_requests = refl;
      same_ballot = rest.same_ballot;
      same_execute = rest.same_execute;
      same_db = rest.same_db;
      same_quorum = rest.same_quorum;
      slots_used = propose-slots p1 p.requests;
      executed = λ s low used.
          propose_outside p1 p.requests s (omega arith)
          ∙ (let taken = repropose-log setup p.ballot p.log p.execute (p.slots - p.execute) s in
              ground arith);
      taken_over = λ s low used.
          propose_outside p1 p.requests s (omega arith)
          ∙ (let taken = repropose-log setup p.ballot p.log p.execute (p.slots - p.execute) s in
              ground arith);
      proposed = λ i r h. propose_inside p1 p.requests i r h;
      above = λ s high.
          propose_outside p1 p.requests s (omega arith)
          ∙ (let taken = repropose-log setup p.ballot p.log p.execute (p.slots - p.execute) s in
              ground arith);
    },
    rw (
      repropose-out setup p.ballot p.log p.execute (p.slots - p.execute),
      propose-out p1 p.requests,
    ),
  )
    where
      p1 : Paxos
      p1 = record p {
        active = true;
        log = (repropose setup p.ballot p.log p.execute (p.slots - p.execute)).0;
      }

      rest : SameRest p1 (propose setup p1 p.requests).0
      rest = propose-SameRest p1 p.requests
