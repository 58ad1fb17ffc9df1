-- ===== src/Db/Commute.antt =====
-- db.go: Conflict and ConflictBatch against the order of two commands.
use mathlib.Core.Path.{fun_ext}
use paxi.Common.{
  ◌≡◌, refl, ap, ◌∙◌, inl, inr, true, false, none, some, List, [], ◌∷◌, ◌==◌, Bool-cases, arith,
}
use paxi.Db.{
  Key, Value, Command, Database, is_nil, is_read, write, execute, conflict, conflict_any,
  conflict_batch, execute_all,
}

Database-ext :
    {d e : Database}
    → ((k : Key) → d.values k ≡ e.values k)
    → d.version ≡ e.version
    → d.multiversion ≡ e.multiversion
    → ((k : Key) → d.history k ≡ e.history k)
    → d ≡ e
Database-ext data_eq version_eq multi_eq history_eq = λ i. record {
  values = fun_ext data_eq i;
  version = version_eq i;
  multiversion = multi_eq i;
  history = fun_ext history_eq i;
}

-- Writes to different keys can be swapped.
write_comm :
    (d : Database) (j k : Key) (v w : Value)
    → (j == k) ≡ false
    → write (write d j v) k w ≡ write (write d k w) j v
unfolding write
write_comm d j k none none h = refl
write_comm d j k none (some w) h = refl
write_comm d j k (some v) none h = refl
write_comm d j k (some v) (some w) h =
    Database-ext (λ i. ground arith) refl refl
      (λ i. elim (Bool-cases d.multiversion) [ inl e ↦ rw e (ground arith) | inr e ↦ rw e ])

write_other :
    (d : Database) (j k : Key) (v : Value) → (j == k) ≡ false → (write d j v).values k ≡ d.values k
unfolding write
write_other d j k none h = refl
write_other d j k (some v) h = rw h

is_nil-none : (v : Value) → is_nil v ≡ true → v ≡ none
is_nil-none none h = refl
is_nil-none (some v) h = cc

-- Commands on one key that do not conflict are reads.
conflict-reads :
    (a b : Command)
    → conflict a b ≡ false
    → (a.key == b.key) ≡ true
    → (a.value ≡ none) × (b.value ≡ none)
unfolding conflict is_read
conflict-reads a b h e = (is_nil-none a.value (ground arith), is_nil-none b.value (ground arith))

-- Two commands that do not conflict can be executed in either order: the store ends in the same
-- state, its versions and histories included, and each command returns the same value.
pub conflict_sound :
    (d : Database) (a b : Command)
    → conflict a b ≡ false
    → ((execute (execute d a).0 b).0 ≡ (execute (execute d b).0 a).0)
      × ((execute (execute d a).0 b).1 ≡ (execute d b).1)
      × ((execute (execute d b).0 a).1 ≡ (execute d a).1)
unfolding execute
conflict_sound d a b h = elim (Bool-cases (a.key == b.key)) [
  | inl same ↦
      let (read_a, read_b) = conflict-reads a b h same in
      unfold write in rw (read_a, read_b) (refl, refl, refl)
  | inr apart ↦ (
    write_comm d a.key b.key a.value b.value apart,
    write_other d a.key b.key a.value apart,
    write_other d b.key a.key b.value (ground arith),
  )
]

-- One command moves past a batch that it does not conflict with.
conflict_any_sound :
    (d : Database) (c : Command) (batch : List Command)
    → conflict_any c batch ≡ false
    → execute_all (execute d c).0 batch ≡ (execute (execute_all d batch) c).0
unfolding conflict_any execute_all
conflict_any_sound d c [] h = refl
conflict_any_sound d c (b ∷ batch) h =
    ap (λ t. execute_all t batch) (conflict_sound d c b (ground arith)).0
    ∙ conflict_any_sound (execute d b).0 c batch (ground arith)

-- Two batches that ConflictBatch passes can be executed in either order, with the same final state.
pub conflict_batch_sound :
    (d : Database) (batch1 batch2 : List Command)
    → conflict_batch batch1 batch2 ≡ false
    → execute_all (execute_all d batch1) batch2 ≡ execute_all (execute_all d batch2) batch1
unfolding conflict_batch execute_all
conflict_batch_sound d [] batch2 h = refl
conflict_batch_sound d (c ∷ batch1) batch2 h =
    conflict_batch_sound (execute d c).0 batch1 batch2 (ground arith)
    ∙ ap (λ t. execute_all t batch1) (conflict_any_sound d c batch2 (ground arith))
