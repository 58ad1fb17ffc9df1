-- ===== src/Paxos/Slots.antt =====
-- paxos/paxos.go: the entries of an instance against its next slot, in every handler.
use paxi.Common.{
  ℕ, ◌<◌, ◌≤◌, ◌≡◌, refl, ap, ◌∙◌, inl, inr, true, ◌&&◌, some, List, [], ◌∷◌, ltb, ◌==◌, put, arith,
  Bool-cases, bytes_eq, ◌||◌,
}
use native.Mathlib.Decide.{dec_lt}
use paxi.Id.{NodeId}
use paxi.Ballot.{Ballot, ballot_id}
use paxi.Quorum.{ack}
use paxi.Db.{Database}
use paxi.Message.{Request}
use paxi.Paxos.{
  CommandBallot, P1a, P1b, P2a, P2b, P3, Message, prepare, promise, accept, accepted, commit_to,
  Output, Entry, Paxos, Setup, new_paxos,
}
use paxi.Paxos.Exec.{exec}
use paxi.Paxos.Exec.Run.{exec_any, Bounded, body, body-none}
use paxi.Paxos.Update.{update_entry-log}
use paxi.Paxos.Lead.Propose.{lead-Leads}
use paxi.Paxos.Phase1.{
  handle_request, handle_p1a, handle_p1b, step_down, collect_promise, update, update_entry, lead,
  max_slot,
}
use paxi.Paxos.Accepted.{
  returned, Ends, ignored, rejected, counted, committed, acked, handle_p2b-Ends,
}
use paxi.Paxos.Phase2.{
  handle_p2a, handle_p3, commit_slot, fall_back, deliver, accept_slot, commit_entry,
}

pub new_paxos-Bounded : (db : Database) → Bounded (new_paxos db)
unfolding new_paxos
new_paxos-Bounded db s h = refl

update_entry-Bounded :
    (p : Paxos) (j : ℕ) (cb : CommandBallot) → Bounded p → Bounded (update_entry p j cb)
update_entry-Bounded p j cb bounded s high =
    let grown : (p.slots ≤ (update_entry p j cb).slots) × (j < (update_entry p j cb).slots) =
      unfold update_entry in (ground arith, ground arith) in
    update_entry-log p j cb s ∙ ground (arith, bounded s (omega arith))

pub update-Bounded :
    (p : Paxos) (scb : List (ℕ × CommandBallot)) → Bounded p → Bounded (update p scb)
unfolding update
update-Bounded p [] bounded = bounded
update-Bounded p ((j, cb) ∷ scb) bounded =
    update-Bounded (update_entry p j cb) scb (update_entry-Bounded p j cb bounded)

exec-Bounded : (p : Paxos) → Bounded p → Bounded (exec p).0
exec-Bounded p bounded s high =
    let ran = exec_any p in
    let none_before = bounded s (omega (arith, ran.same_slots)) in
    body-none _ (ran.same_log s ∙ ap body none_before)

module _ (setup : Setup) where
  lead-Bounded : (p : Paxos) → Bounded p → Bounded (lead setup p).0
  lead-Bounded p bounded s high =
      let led = (lead-Leads setup p).0 in
      led.above s (omega (arith, led.slots_used)) ∙ bounded s (omega (arith, led.slots_used))

  collect_promise-Bounded :
      (p : Paxos) (id : NodeId) → Bounded p → Bounded (collect_promise setup p id).0
  unfolding collect_promise
  collect_promise-Bounded p id bounded = elim (Bool-cases (setup.q1 (ack p.quorum id))) [
    | inl e ↦ rw e (lead-Bounded (record p { quorum = ack p.quorum id }) bounded)
    | inr e ↦ rw e bounded
  ]

  pub step_down-Bounded : (p : Paxos) (b : Ballot) → Bounded p → Bounded (step_down p b).0
  unfolding step_down
  step_down-Bounded p b bounded = elim (Bool-cases (ltb p.ballot b)) [
    | inl e ↦ rw e bounded
    | inr e ↦ rw e bounded
  ]

  handle_p1b-Bounded : (p : Paxos) (m : P1b) → Bounded p → Bounded (handle_p1b setup p m).0
  unfolding handle_p1b
  handle_p1b-Bounded p m bounded =
      let b1 = step_down-Bounded (update p m.log) m.ballot (update-Bounded p m.log bounded) in
      let p1 = (step_down (update p m.log) m.ballot).0 in
      elim (Bool-cases (ltb m.ballot p.ballot || p.active)) [
        | inl e ↦ rw e bounded
        | inr e ↦
            elim (Bool-cases (bytes_eq (ballot_id m.ballot) setup.own && m.ballot == p1.ballot)) [
              | inl f ↦ rw (e, f) (collect_promise-Bounded p1 m.id b1)
              | inr f ↦ rw (e, f) b1
            ]
      ]

  handle_p1a-Bounded : (p : Paxos) (m : P1a) → Bounded p → Bounded (handle_p1a setup p m).0
  unfolding handle_p1a
  handle_p1a-Bounded p m bounded s high = ground (arith, bounded s)

  handle_p2a-Bounded : (p : Paxos) (m : P2a) → Bounded p → Bounded (handle_p2a setup p m).0
  unfolding handle_p2a accept_slot
  handle_p2a-Bounded p m bounded s high = ground (arith, bounded s)

  commit_slot-Bounded :
      (p : Paxos) (m : P2b) (e : Entry) (p' : Paxos) (out : List Output)
      → Bounded p
      → m.slot < p.slots
      → commit_slot setup p m e ≡ some (p', out)
      → Bounded p'
  unfolding commit_slot
  commit_slot-Bounded p m e p' out bounded used h s high =
      let p1 = record p { log = put p.log m.slot (some (record e { commit = true })) } in
      let put_bounded : Bounded p1 = λ t above. ground (arith, bounded t above) in
      let ran = exec-Bounded p1 put_bounded s in ground (arith, put_bounded s)

  fall_back-Bounded : (p : Paxos) (b : Ballot) → Bounded p → Bounded (fall_back setup p b)
  unfolding fall_back
  fall_back-Bounded p b bounded s = ground (arith, bounded s)

  used_slot : (p : Paxos) (s : ℕ) (e : Entry) → Bounded p → p.log s ≡ some e → s < p.slots
  used_slot p s e bounded h = elim (dec_lt s p.slots) [
    | yes below ↦ below
    | no above ↦ cc (h, bounded s (omega arith))
  ]

  fallen_slot : (p : Paxos) (b : Ballot) (s : ℕ) → s < p.slots → s < (fall_back setup p b).slots
  unfolding fall_back
  fallen_slot p b s h = ground arith

  Ends-Bounded :
      (p : Paxos) (m : P2b) (p' : Paxos) (out : List Output)
      → Bounded p
      → Ends setup p m p' out
      → Bounded p'
  Ends-Bounded p m p' out bounded (ignored e) = rw e bounded
  Ends-Bounded p m p' out bounded (rejected e) = rw e (fall_back-Bounded p m.ballot bounded)
  Ends-Bounded p m p' out bounded (counted e q c short eq) =
      let used = fallen_slot p m.ballot m.slot (used_slot p m.slot e bounded c.at_slot) in
      rw eq (λ s high. ground (arith, fall_back-Bounded p m.ballot bounded s))
  Ends-Bounded p m p' out bounded (committed e q c full eq) =
      commit_slot-Bounded (fall_back setup p m.ballot) m (acked setup p m e q) p' out
        (fall_back-Bounded p m.ballot bounded)
        (fallen_slot p m.ballot m.slot (used_slot p m.slot e bounded c.at_slot)) eq

  handle_p3-Bounded : (p : Paxos) (m : P3) → Bounded p → Bounded (handle_p3 setup p m).0
  unfolding handle_p3
  handle_p3-Bounded p m bounded s high =
      let (e, out) = commit_entry (p.log m.slot) m in
      let p' = record p { slots = max_slot p.slots m.slot; log = put p.log m.slot (some e) } in
      let b' : Bounded p' = λ t above. ground (arith, bounded t) in
      ground (arith, exec-Bounded p' b' s, b' s)

  -- Every message leaves the entries of an instance below its next slot.
  pub deliver-Bounded :
      (p : Paxos) (m : Message) (p' : Paxos) (out : List Output)
      → Bounded p
      → deliver setup p m ≡ some (p', out)
      → Bounded p'
  unfolding deliver
  deliver-Bounded p (prepare m) p' out bounded h = rw (returned h) (handle_p1a-Bounded p m bounded)
  deliver-Bounded p (promise m) p' out bounded h = rw (returned h) (handle_p1b-Bounded p m bounded)
  deliver-Bounded p (accept m) p' out bounded h = rw (returned h) (handle_p2a-Bounded p m bounded)
  deliver-Bounded p (accepted m) p' out bounded h =
      Ends-Bounded p m p' out bounded (handle_p2b-Ends setup p m p' out h)
  deliver-Bounded p (commit_to m) p' out bounded h = rw (returned h) (handle_p3-Bounded p m bounded)

  pub handle_request-Bounded :
      (p : Paxos) (r : Request) → Bounded p → Bounded (handle_request setup p r).0
  unfolding handle_request
  handle_request-Bounded p r bounded s high = ground (arith, bounded s)
