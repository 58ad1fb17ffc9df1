-- ===== src/Paxos/Commit/Decide.antt =====
-- paxos/paxos.go: what a message may decide.
use paxi.Common.{
  ℕ, ◌≡◌, refl, sym, ap, ◌∙◌, ◌⊎◌, inl, inr, true, false, Option, none, some, List, ltb, ◌==◌,
  ==→eq, if◌then◌else◌, put, arith, Bool-cases,
}
use paxi.Ballot.{Ballot}
use paxi.Quorum.{Quorum, ack}
use paxi.Db.{Command}
use paxi.Paxos.{
  P2b, P3, Message, prepare, promise, accept, accepted, commit_to, Output, Entry, Paxos, Setup,
}
use paxi.Paxos.Exec.Run.{Bounded, decided, exec-decided}
use paxi.Paxos.Accepted.{
  returned, Ends, ignored, rejected, counted, committed, acked, Counts, handle_p2b-Ends,
}
use paxi.Paxos.Commit.{decision, handle_p1a-decision, handle_p1b-decision, handle_p2a-decision}
use paxi.Paxos.Phase1.{max_slot}
use paxi.Paxos.Phase2.{handle_p3, commit_slot, fall_back, deliver, commit_entry}

module _ (setup : Setup) where
  -- Why a message makes a slot decided with a command: it completes the quorum of the entry that the
  -- node has proposed there, or it announces the decision.
  pub data DecidedBy (p : Paxos) (s : ℕ) (c : Command) : Message → Type 0 where
    quorum :
        (m : P2b) (e : Entry) (q : Quorum)
        → Counts setup p m e q
        → setup.q2 (ack q m.id) ≡ true
        → m.slot ≡ s
        → e.command ≡ c
        → DecidedBy p s c (accepted m)
    announced : (m : P3) → m.slot ≡ s → m.command ≡ c → DecidedBy p s c (commit_to m)

  fallen-decision :
      (p : Paxos) (b : Ballot) (s : ℕ) → decision (fall_back setup p b) s ≡ decision p s
  unfolding fall_back
  fallen-decision p b s = elim (Bool-cases (ltb p.ballot b)) [ inl e ↦ rw e | inr e ↦ rw e ]

  commit_slot-decision :
      (p : Paxos) (m : P2b) (e : Entry) (p' : Paxos) (out : List Output)
      → commit_slot setup p m e ≡ some (p', out)
      → (s : ℕ) → decision p' s ≡ (if m.slot == s then some e.command else decision p s)
  unfolding commit_slot
  commit_slot-decision p m e p' out h s =
      let p1 = record p { log = put p.log m.slot (some (record e { commit = true })) } in
      let ran = exec-decided p1 s in
      let here : decision p1 s ≡ (if m.slot == s then some e.command else decision p s) =
        unfold decided in ground arith in
      ground arith

  acked-decided :
      (e : Entry) (q : Option Quorum) → decided (some (record e { quorum = q })) ≡ decided (some e)
  unfolding decided
  acked-decided e q = refl

  Ends-decision :
      (p : Paxos) (m : P2b) (p' : Paxos) (out : List Output)
      → Ends setup p m p' out
      → (s : ℕ)
      → (decision p' s ≡ decision p s)
        ⊎ ((c : Command) × (decision p' s ≡ some c) × DecidedBy p s c (accepted m))
  Ends-decision p m p' out (ignored e) s = inl (rw e)
  Ends-decision p m p' out (rejected e) s = inl (rw e (fallen-decision p m.ballot s))
  Ends-decision p m p' out (counted e q c short eq) s = inl (
      rw eq (elim (Bool-cases (m.slot == s)) [
        | inl same ↦ rw same (
            acked-decided e (some (ack q m.id))
            ∙ sym (ap decided c.at_slot)
            ∙ ap (λ t. decided (p.log t)) (==→eq m.slot s same))
        | inr apart ↦ rw apart (fallen-decision p m.ballot s)
      ]))
  Ends-decision p m p' out (committed e q c full eq) s =
      let result =
        commit_slot-decision (fall_back setup p m.ballot) m (acked setup p m e q) p' out eq s in
      elim (Bool-cases (m.slot == s)) [
        | inl same ↦
            inr (e.command, rw same at result, quorum m e q c full (==→eq m.slot s same) refl)
        | inr apart ↦ inl ((rw apart at result) ∙ fallen-decision p m.ballot s)
      ]

  commit_entry-decided :
      (o : Option Entry) (m : P3) → decided (some (commit_entry o m).0) ≡ some m.command
  unfolding commit_entry decided
  commit_entry-decided none m = refl
  commit_entry-decided (some e) m = ground arith

  handle_p3-decision :
      (p : Paxos) (m : P3) (s : ℕ)
      → decision (handle_p3 setup p m).0 s ≡ (if m.slot == s then some m.command else decision p s)
  unfolding handle_p3
  handle_p3-decision p m s =
      let e = (commit_entry (p.log m.slot) m).0 in
      let p1 = record p { slots = max_slot p.slots m.slot; log = put p.log m.slot (some e) } in
      let ran = exec-decided p1 s in
      let set = commit_entry-decided (p.log m.slot) m in
      let here : decision p1 s ≡ (if m.slot == s then some m.command else decision p s) =
        elim (Bool-cases (m.slot == s)) [ inl same ↦ rw same set | inr apart ↦ rw apart ] in
      ground arith

  -- In an instance whose entries stand below the next slot, a message changes what it knows to be
  -- decided in a slot only in two ways: it is the
  -- accepted message that completes the phase-2 quorum of the uncommitted entry which the node
  -- itself proposed in that ballot, and the slot is decided with that entry's command; or it is the
  -- commit message for the slot, whose command is taken over.
  pub deliver-decision :
      (p : Paxos) (m : Message) (p' : Paxos) (out : List Output)
      → Bounded p
      → deliver setup p m ≡ some (p', out)
      → (s : ℕ)
      → (decision p' s ≡ decision p s)
        ⊎ ((c : Command) × (decision p' s ≡ some c) × DecidedBy p s c m)
  unfolding deliver
  deliver-decision p (prepare m) p' out bounded h s =
      inl (rw (returned h) (handle_p1a-decision setup p m s))
  deliver-decision p (promise m) p' out bounded h s =
      inl (rw (returned h) (handle_p1b-decision setup p m bounded s))
  deliver-decision p (accept m) p' out bounded h s =
      inl (rw (returned h) (handle_p2a-decision setup p m s))
  deliver-decision p (accepted m) p' out bounded h s =
      Ends-decision p m p' out (handle_p2b-Ends setup p m p' out h) s
  deliver-decision p (commit_to m) p' out bounded h s = elim (Bool-cases (m.slot == s)) [
    | inl same ↦ inr (
      m.command,
      rw (returned h) (rw same at (handle_p3-decision p m s)),
      announced m (==→eq m.slot s same) refl,
    )
    | inr apart ↦ inl (rw (returned h) (rw apart at (handle_p3-decision p m s)))
  ]

  uncommitted-undecided :
      (o : Option Entry) (e : Entry) → o ≡ some e → e.commit ≡ false → decided o ≡ none
  unfolding decided
  uncommitted-undecided o e h c = rw h (simp c)

  -- In an instance whose entries stand below the next slot a decision stays: after any message but
  -- a commit message for the slot that carries another
  -- command, the instance still knows the slot to be decided with the same command.
  pub decision_stays :
      (p : Paxos) (m : Message) (p' : Paxos) (out : List Output) (s : ℕ) (c : Command)
      → Bounded p
      → deliver setup p m ≡ some (p', out)
      → decision p s ≡ some c
      → ((k : P3) → m ≡ commit_to k → k.slot ≡ s → k.command ≡ c)
      → decision p' s ≡ some c
  decision_stays p m p' out s c bounded h d agree =
      stays m agree (deliver-decision p m p' out bounded h s)
    where
      stays :
          (m : Message)
          → ((k : P3) → m ≡ commit_to k → k.slot ≡ s → k.command ≡ c)
          → (decision p' s ≡ decision p s)
            ⊎ ((c' : Command) × (decision p' s ≡ some c') × DecidedBy p s c' m)
          → decision p' s ≡ some c
      stays m agree' (inl same) = same ∙ d
      stays m agree' (inr (c', now, quorum a e q counts full at_s same)) =
          let before = uncommitted-undecided (p.log a.slot) e counts.at_slot counts.uncommitted in
          absurd (cc (ap (decision p) at_s, before, d))
      stays m agree' (inr (c', now, announced k at_s same)) =
          now ∙ ap some (sym same ∙ agree' k refl at_s)
