-- ===== src/Paxos/Commit.antt =====
-- paxos/paxos.go: the handlers against the decisions that an instance knows.
pub mod Decide
use paxi.Common.{
  ℕ, zero, suc, ◌+◌, ◌-◌, ◌<◌, ◌≤◌, ◌≡◌, refl, sym, ap, ◌∙◌, ◌⊎◌, inl, inr, Bool, true, false, not,
  ◌&&◌, ◌||◌, Option, none, some, List, [], ◌∷◌, ◌++◌, ltb, leb, ◌==◌, ==→eq, if◌then◌else◌, put,
  arith, Bool-cases, Option-cases, length, bytes_eq, get_elem?,
}
use native.Mathlib.Decide.{dec_lt}
use paxi.Id.{NodeId}
use paxi.Ballot.{Ballot, ballot_id}
use paxi.Quorum.{Quorum, ack}
use paxi.Db.{Command, Database}
use paxi.Message.{Request}
use paxi.Paxos.{
  CommandBallot, P1a, P1b, P2a, P2b, P3, Message, prepare, promise, accept, accepted, commit_to,
  Output, Entry, Paxos, Setup, new_paxos,
}
use paxi.Paxos.Exec.{exec}
use paxi.Paxos.Exec.Run.{Bounded, decided, exec-decided}
use paxi.Paxos.Accepted.{
  returned, Ends, ignored, rejected, counted, committed, acked, Counts, handle_p2b-Ends,
}
use paxi.Paxos.Update.{merge, update_entry-log}
use paxi.Paxos.Slots.{update-Bounded, step_down-Bounded}
use paxi.Paxos.Lead.{take_over}
use paxi.Paxos.Lead.Propose.{lead-Leads, proposal}
use paxi.Paxos.Phase1.{
  handle_request, handle_p1a, handle_p1b, step_down, collect_promise, update, update_entry, lead,
  max_slot,
}
use paxi.Paxos.Phase2.{
  handle_p2a, handle_p2b, handle_p3, commit_slot, collect_accepted, fall_back, deliver, accept_slot,
  accept_entry, commit_entry, give_up,
}

-- What the instance knows to be decided in a slot.
abbrev pub decision : Paxos → ℕ → Option Command
decision p s = decided (p.log s)

merge-decided : (o : Option Entry) (cb : CommandBallot) → decided (merge o cb) ≡ decided o
unfolding decided merge
merge-decided none cb = refl
merge-decided (some e) cb = ground arith

update-decision :
    (p : Paxos) (scb : List (ℕ × CommandBallot)) (s : ℕ) → decision (update p scb) s ≡ decision p s
unfolding update
update-decision p [] s = refl
update-decision p ((j, cb) ∷ scb) s =
    update-decision (update_entry p j cb) scb s
    ∙ ap decided (update_entry-log p j cb s)
    ∙ elim (Bool-cases (j == s)) [
      | inl same ↦ rw same (merge-decided (p.log s) cb)
      | inr apart ↦ rw apart
    ]

module _ (setup : Setup) where
  take_over-decided : (b : Ballot) (o : Option Entry) → decided (take_over setup b o) ≡ decided o
  unfolding take_over decided
  take_over-decided b none = refl
  take_over-decided b (some e) = ground arith

  -- The index of a slot among those that the pending requests get.
  request_at :
      (rs : List Request) (i : ℕ) → i < length rs → (r : Request) × (get_elem? rs i ≡ some r)
  request_at [] i h = absurd (omega arith)
  request_at (r ∷ rs) zero h = (r, refl)
  request_at (r ∷ rs) (suc i) h = request_at rs i (omega arith)

  lead-decision : (p : Paxos) → Bounded p → (s : ℕ) → decision (lead setup p).0 s ≡ decision p s
  lead-decision p bounded s =
      let led = (lead-Leads setup p).0 in
      elim (dec_lt s p.slots) [
        | yes used ↦ elim (dec_lt s p.execute) [
          | yes low ↦ ap decided (led.executed s low used)
          | no high ↦
              ap decided (led.taken_over s (omega arith) used)
              ∙ take_over-decided p.ballot (p.log s)
        ]
        | no fresh ↦ elim (dec_lt s (p.slots + length p.requests)) [
          | yes mine ↦
              let (r, at_i) = request_at p.requests (s - p.slots) (omega arith) in
              let there : p.slots + (s - p.slots) ≡ s = omega arith in
              let new_entry = rw there at (led.proposed (s - p.slots) r at_i) in
              ap decided new_entry ∙ unfold decided in (sym (ap decided (bounded s (omega arith))))
          | no beyond ↦ ap decided (led.above s (omega arith))
        ]
      ]

  step_down-decision :
      (p : Paxos) (b : Ballot) (s : ℕ) → decision (step_down p b).0 s ≡ decision p s
  unfolding step_down
  step_down-decision p b s = elim (Bool-cases (ltb p.ballot b)) [ inl e ↦ rw e | inr e ↦ rw e ]

  collect_promise-decision :
      (p : Paxos) (id : NodeId)
      → Bounded p
      → (s : ℕ) → decision (collect_promise setup p id).0 s ≡ decision p s
  unfolding collect_promise
  collect_promise-decision p id bounded s = elim (Bool-cases (setup.q1 (ack p.quorum id))) [
    | inl e ↦ rw e (lead-decision (record p { quorum = ack p.quorum id }) bounded s)
    | inr e ↦ rw e
  ]

  pub handle_p1b-decision :
      (p : Paxos) (m : P1b)
      → Bounded p
      → (s : ℕ) → decision (handle_p1b setup p m).0 s ≡ decision p s
  unfolding handle_p1b
  handle_p1b-decision p m bounded s =
      let p1 = (step_down (update p m.log) m.ballot).0 in
      let b1 = step_down-Bounded setup (update p m.log) m.ballot (update-Bounded p m.log bounded) in
      let first = step_down-decision (update p m.log) m.ballot s ∙ update-decision p m.log s in
      elim (Bool-cases (ltb m.ballot p.ballot || p.active)) [
        | inl e ↦ rw e
        | inr e ↦
            elim (Bool-cases (bytes_eq (ballot_id m.ballot) setup.own && m.ballot == p1.ballot)) [
              | inl f ↦ rw (e, f) (collect_promise-decision p1 m.id b1 s ∙ first)
              | inr f ↦ rw (e, f) first
            ]
      ]

  pub handle_p1a-decision :
      (p : Paxos) (m : P1a) (s : ℕ) → decision (handle_p1a setup p m).0 s ≡ decision p s
  unfolding handle_p1a
  handle_p1a-decision p m s = elim (Bool-cases (ltb p.ballot m.ballot)) [
    | inl e ↦ rw e
    | inr e ↦ rw e
  ]

  accept_entry-decided : (o : Option Entry) (m : P2a) → decided (accept_entry o m).0 ≡ decided o
  unfolding accept_entry give_up decided
  accept_entry-decided none m = refl
  accept_entry-decided (some e) m = ground arith

  pub handle_p2a-decision :
      (p : Paxos) (m : P2a) (s : ℕ) → decision (handle_p2a setup p m).0 s ≡ decision p s
  unfolding handle_p2a accept_slot
  handle_p2a-decision p m s = elim (Bool-cases (leb p.ballot m.ballot)) [
    | inl e ↦ elim (Bool-cases (m.slot == s)) [
      | inl same ↦
          rw (e, same)
            (accept_entry-decided (p.log m.slot) m
              ∙ ap (λ t. decided (p.log t)) (==→eq m.slot s same))
      | inr apart ↦ rw (e, apart)
    ]
    | inr e ↦ rw e
  ]

  pub handle_request-decision :
      (p : Paxos) (r : Request)
      → Bounded p
      → (s : ℕ) → decision (handle_request setup p r).0 s ≡ decision p s
  unfolding handle_request decided
  handle_request-decision p r bounded s = ground (arith, bounded s)
