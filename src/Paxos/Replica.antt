-- ===== src/Paxos/Replica.antt =====
-- paxos/replica.go: client requests to a Paxos replica, and reads that take no slot.
use paxi.Common.{
  ℕ, zero, suc, ◌-◌, Bool, not, ◌&&◌, ◌||◌, Option, none, some, List, [], ◌∷◌, codes, ◌==◌,
  if◌then◌else◌,
}
use paxi.Id
use paxi.Id.{show_int}
use paxi.Id.Strconv.{itoa}
use paxi.Ballot.{show_ballot, ballot_id}
use paxi.Db.{Key, Value, is_read, execute}
use paxi.Message.{Request}
use paxi.Paxos.{Output, forward, reply, Entry, Paxos, Setup}
use paxi.Paxos.Phase1.{is_leader, handle_request}
pub mod Read

-- The loop of read over `k` slots from `s` on.
unfoldable pub read_log : (ℕ → Option Entry) → Key → ℕ → ℕ → Option Value
read_log log key s zero = none
read_log log key s (suc k) =
    let rest = read_log log key (suc s) k in
    elim (log s) [
      | none ↦ rest
      | some e ↦ if e.command.key == key then some e.command.value else rest
    ]

-- The value and the slot, with the state that the execution of the command leaves.
unfoldable pub read : Paxos → Request → Paxos × Value × ℕ
unfolding read_log
read p m = elim (read_log p.log m.command.key p.execute (p.slots - p.execute)) [
  | some v ↦ (p, v, p.slots - 1)
  | none ↦ let (db, v) = execute p.db m.command in (record p { db = db }, v, 0)
]

-- `execute - 1`, which is -1 before the first slot.
abbrev pub executed : Paxos → Id.Int64
executed p = if p.execute == 0 then Id.neg 0 else Id.pos (p.execute - 1)

-- The flags of the command line, and the clock.
pub record Flags : Type 0 where
  pub ephemeral_leader : Bool
  pub read_quorum : Bool
  pub read_leader : Bool
  pub now : ℕ

module _ (setup : Setup) (flags : Flags) where
  -- The condition for a read that takes no slot.
  abbrev pub reads_locally : Paxos → Request → Bool
  reads_locally p m =
      is_read m.command && (flags.read_quorum || (flags.read_leader && is_leader setup p))

  unfoldable pub answer_read : Paxos → Request → Paxos × List Output
  unfolding read
  answer_read p m =
      let (p', v, s) = read p m in
      (
        p',
        reply m (record {
          command = m.command;
          value = v;
          properties =
              (codes "Slot", itoa s)
              ∷ (codes "Ballot", show_ballot p'.ballot)
              ∷ (codes "Execute", show_int (executed p'))
              ∷ [];
          timestamp = flags.now;
        })
            ∷ [],
      )

  -- handleRequest; `go r.Forward` is an output as any other.
  unfoldable pub handle_client : Paxos → Request → Paxos × List Output
  unfolding answer_read
  handle_client p m =
      if reads_locally p m
      then answer_read p m
      else (if flags.ephemeral_leader || (is_leader setup p || p.ballot == 0)
          then handle_request setup p m
          else (p, forward (ballot_id p.ballot) m ∷ []))
