-- ===== src/Paxos/Accepted.antt =====
-- paxos/paxos.go: the ways in which HandleP2b can end.
use paxi.Common.{
  ◌≡◌, sym, ap, inl, inr, true, false, ◌&&◌, ◌||◌, Option, none, some, List, ltb, ◌==◌, put, arith,
  Bool-cases, Option-cases, bytes_eq,
}
use paxi.Ballot.{ballot_id}
use paxi.Quorum.{Quorum, ack}
use paxi.Paxos.{P2b, Output, Entry, Paxos, Setup}
use paxi.Paxos.Phase2.{handle_p2b, commit_slot, collect_accepted, fall_back}

-- The state of a result is the one that was returned.
pub returned :
    {a c : Paxos} {b d : List Output}
    → ◌≡◌ {A = Option (Paxos × List Output)} (some (a, b)) (some (c, d))
    → c ≡ a
returned {a} h = sym (ap (λ o. elim o [ none ↦ a | some t ↦ t.0 ]) h)

module _ (setup : Setup) (p : Paxos) (m : P2b) where
  -- The message counts for the entry `e` with quorum `q`: an uncommitted one that the node proposed
  -- in the ballot of the message.
  pub record Counts (e : Entry) (q : Quorum) : Type 0 where
    pub at_slot : p.log m.slot ≡ some e
    pub uncommitted : e.commit ≡ false
    pub same_ballot : m.ballot ≡ e.ballot
    pub own_ballot : bytes_eq (ballot_id m.ballot) setup.own ≡ true
    pub has_quorum : e.quorum ≡ some q

  -- The entry with the acknowledgement counted.
  abbrev pub acked : Entry → Quorum → Entry
  acked e q = record e { quorum = some (ack q m.id) }

  -- The instance after the reject message of HandleP2b.
  abbrev pub fallen : Paxos
  fallen = fall_back setup p m.ballot

  pub data Ends (p' : Paxos) (out : List Output) : Type 0 where
    ignored : p' ≡ p → Ends p' out
    rejected : p' ≡ fallen → Ends p' out
    counted :
        (e : Entry) (q : Quorum)
        → Counts e q
        → setup.q2 (ack q m.id) ≡ false
        → p' ≡ record (fallen) { log = put (fallen).log m.slot (some (acked e q)) }
        → Ends p' out
    committed :
        (e : Entry) (q : Quorum)
        → Counts e q
        → setup.q2 (ack q m.id) ≡ true
        → commit_slot setup fallen m (acked e q) ≡ some (p', out)
        → Ends p' out

  collect_accepted-Ends :
      (e : Entry) (p' : Paxos) (out : List Output)
      → p.log m.slot ≡ some e
      → e.commit ≡ false
      → m.ballot ≡ e.ballot
      → bytes_eq (ballot_id m.ballot) setup.own ≡ true
      → collect_accepted setup fallen m e ≡ some (p', out)
      → Ends p' out
  unfolding collect_accepted
  collect_accepted-Ends e p' out at_slot open_entry same own h = elim (Option-cases e.quorum) [
    | inl no_quorum ↦ absurd (ground arith)
    | inr (q, has) ↦
        let counts : Counts e q = record {
          at_slot = at_slot;
          uncommitted = open_entry;
          same_ballot = same;
          own_ballot = own;
          has_quorum = has;
        } in
        elim (Bool-cases (setup.q2 (ack q m.id))) [
          | inl full ↦ committed e q counts full (rw (has, full) at h)
          | inr short ↦ counted e q counts short (returned (rw (has, short) at h))
        ]
  ]

  pub handle_p2b-Ends :
      (p' : Paxos) (out : List Output) → handle_p2b setup p m ≡ some (p', out) → Ends p' out
  unfolding handle_p2b
  handle_p2b-Ends p' out h = elim (Option-cases (p.log m.slot)) [
    | inl missing ↦ absurd (ground arith)
    | inr (e, at_slot) ↦ elim (Bool-cases (ltb m.ballot e.ballot || e.commit)) [
      | inl old ↦ ignored (returned (rw (at_slot, handle_p2b, old) at h))
      | inr now ↦
          elim (Bool-cases (bytes_eq (ballot_id m.ballot) setup.own && m.ballot == e.ballot)) [
            | inl mine ↦
                collect_accepted-Ends e p' out at_slot (ground arith) (ground arith) (ground arith)
                  (rw (at_slot, handle_p2b, now, mine) at h)
            | inr other ↦ rejected (returned (rw (at_slot, handle_p2b, now, other) at h))
          ]
    ]
  ]
