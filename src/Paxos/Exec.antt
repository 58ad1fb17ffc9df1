-- ===== src/Paxos/Exec.antt =====
-- paxos/paxos.go: exec, which runs the committed commands in the order of their slots.
pub mod Run
use paxi.Common.{
  ℕ, zero, suc, ◌+◌, ◌-◌, ◌<◌, ◌≤◌, ◌≡◌, refl, sym, ap, ◌∙◌, inl, inr, Bool, true, false, not,
  Option, none, some, List, [], ◌∷◌, ◌++◌, Bytes, codes, ltb, ◌==◌, if◌then◌else◌, put, length,
  arith, Bool-cases,
}
use paxi.Id.Strconv.{itoa}
use paxi.Ballot.{show_ballot}
use paxi.Db
use paxi.Db.{Command, Value, execute_all}
use paxi.Message.{Request, Reply}
use paxi.Paxos.{Entry, Paxos, Output, reply}

-- The reply properties of paxos/replica.go.
abbrev pub slot_header : Bytes
slot_header = codes "Slot"

abbrev pub ballot_header : Bytes
ballot_header = codes "Ballot"

abbrev pub execute_header : Bytes
execute_header = codes "Execute"

-- The reply to the client whose request an executed entry still holds.
unfoldable pub exec_reply : ℕ → Entry → Value → List Output
exec_reply slot e value = elim e.request [
  | none ↦ []
  | some r ↦
      reply r (record {
        command = e.command;
        value = value;
        properties =
            (slot_header, itoa slot)
            ∷ (ballot_header, show_ballot e.ballot)
            ∷ (execute_header, itoa slot)
            ∷ [];
        timestamp = 0;
      })
      ∷ []
]

-- One round of the loop on a committed entry.
unfoldable pub exec_step : Paxos → Entry → Paxos
exec_step p e = record p {
  db = (Db.execute p.db e.command).0;
  log = put p.log p.execute (some (record e { request = none }));
  execute = suc p.execute;
}

-- The entry that the loop goes on with: the one at `execute`, if it is committed.
unfoldable pub ready : Paxos → Option Entry
ready p = elim (p.log p.execute) [ none ↦ none | some e ↦ if e.commit then some e else none ]

-- `for { e, ok := p.log[p.execute]; if !ok || !e.commit { break } … }`, on fuel.
unfoldable pub exec_loop : ℕ → Paxos → Paxos × List Output
unfolding ready exec_step
exec_loop zero p = (p, [])
exec_loop (suc fuel) p = elim (ready p) [
  | none ↦ (p, [])
  | some e ↦
      let (p', out) = exec_loop fuel (exec_step p e) in
      (p', exec_reply p.execute e (Db.execute p.db e.command).1 ++ out)
]

-- The slots in use bound the rounds: an entry stands below `slots`.
unfoldable pub exec : Paxos → Paxos × List Output
unfolding exec_loop
exec p = exec_loop (suc p.slots - p.execute) p
