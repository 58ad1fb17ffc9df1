-- ===== src/Db/History.antt =====
-- db.go: the store against the sequence of the commands that it executed.
use paxi.Common.{
  ℕ, suc, ◌+◌, ◌≡◌, refl, sym, ◌∙◌, inl, inr, true, not, ◌&&◌, none, some, List, [], ◌∷◌, ◌++◌,
  append-nil, append_assoc, Bytes, ◌==◌, ==→eq, if◌then◌else◌, Bool-cases, arith, bytes_eq_iff, ◌↔◌,
}
use paxi.Db.{
  Key, Value, Command, Database, write, execute, execute_all, get, get_history, get_version,
  new_database, is_read, is_nil, equal, contents,
}

-- What the commands wrote under a key, oldest first.
abbrev pub writes : Key → List Command → List Bytes
writes k [] = []
writes k (c ∷ cs) = elim c.value [
  | none ↦ writes k cs
  | some v ↦ if c.key == k then v ∷ writes k cs else writes k cs
]

-- The last of the values that were written, or an older one.
abbrev pub last_of : Value → List Bytes → Value
last_of v [] = v
last_of v (w ∷ ws) = last_of (some w) ws

-- How many commands write, whatever their key.
abbrev pub write_count : List Command → ℕ
write_count [] = 0
write_count (c ∷ cs) = elim c.value [ none ↦ write_count cs | some v ↦ suc (write_count cs) ]

execute_all-values :
    (d : Database) (cs : List Command) (k : Key)
    → (execute_all d cs).values k ≡ last_of (d.values k) (writes k cs)
unfolding execute_all execute write
execute_all-values d [] k = refl
execute_all-values d (c ∷ cs) k = ground (arith, execute_all-values (execute d c).0 cs k)

execute_all-version :
    (d : Database) (cs : List Command) → (execute_all d cs).version ≡ d.version + write_count cs
unfolding execute_all execute write
execute_all-version d [] = omega arith
execute_all-version d (c ∷ cs) = ground (arith, execute_all-version (execute d c).0 cs)

execute_all-multiversion :
    (d : Database) (cs : List Command) → (execute_all d cs).multiversion ≡ d.multiversion
unfolding execute_all execute write
execute_all-multiversion d [] = refl
execute_all-multiversion d (c ∷ cs) = ground (arith, execute_all-multiversion (execute d c).0 cs)

-- What one write adds to the history of key `k`.
abbrev written : Key → Key → Value → List Bytes
written k j none = []
written k j (some v) = if j == k then v ∷ [] else []

writes-cons :
    (k : Key) (c : Command) (cs : List Command)
    → writes k (c ∷ cs) ≡ written k c.key c.value ++ writes k cs
writes-cons k c cs = ground arith

history-write :
    (d : Database) (j k : Key) (v : Value)
    → d.multiversion ≡ true
    → (write d j v).history k ≡ d.history k ++ written k j v
unfolding write
history-write d j k none m = sym (append-nil (d.history k))
history-write d j k (some v) m = elim (Bool-cases (j == k)) [
  | inl same ↦ rw (m, same, ==→eq j k same)
  | inr apart ↦ rw (m, apart) (sym (append-nil (d.history k)))
]

execute_all-history :
    (d : Database) (cs : List Command) (k : Key)
    → d.multiversion ≡ true
    → (execute_all d cs).history k ≡ d.history k ++ writes k cs
unfolding execute_all execute
execute_all-history d [] k m = sym (append-nil (d.history k))
execute_all-history d (c ∷ cs) k m =
    let kept = execute_all-multiversion d (c ∷ []) ∙ m in
    rw (
      execute_all-history (write d c.key c.value) cs k kept,
      history-write d c.key k c.value m,
      writes-cons k c cs,
      append_assoc,
    )

-- After any commands on a new store that keeps versions: Get returns the last value written under
-- the key, or nil if there is none; History returns all of them, oldest first; and Version of a key
-- is not a version of the key, but the number of the writes to all keys together.
pub execute_all-new_database :
    (cs : List Command) (k : Key)
    → let d = execute_all (new_database true) cs in
      (get d k ≡ last_of none (writes k cs))
      × (get_history d k ≡ writes k cs)
      × (get_version d k ≡ write_count cs)
unfolding get get_history get_version new_database
execute_all-new_database cs k = (
  execute_all-values _ cs k,
  execute_all-history _ cs k refl,
  execute_all-version _ cs ∙ (omega arith),
)

write-nil : (d : Database) (j : Key) (v : Value) → is_nil v ≡ true → write d j v ≡ d
unfolding write
write-nil d j none h = refl
write-nil d j (some v) h = cc

-- Execute returns the value of its key before the command, and Get afterwards returns what the
-- command wrote under its own key and the old value of every other; a read changes nothing.
pub execute_lem :
    (d : Database) (c : Command) (k : Key)
    → ((execute d c).1 ≡ get d c.key)
      × (get (execute d c).0 k ≡ (if c.key == k && not (is_read c) then c.value else get d k))
      × (is_read c ≡ true → (execute d c).0 ≡ d)
unfolding execute get write is_read
execute_lem d c k = (refl, ground arith, write-nil d c.key c.value)

-- Equal holds of exactly the commands with the same key, client and number whose values have the
-- same bytes: a nil value, a read, passes for a write of no bytes.
pub equal_iff :
    (c a : Command)
    → (equal c a ≡ true) ↔ (
        (c.key ≡ a.key)
        × (contents c.value ≡ contents a.value)
        × (c.client_id ≡ a.client_id)
        × (c.command_id ≡ a.command_id))
unfolding equal
equal_iff c a =
    let values = bytes_eq_iff (contents c.value) (contents a.value) in
    let clients = bytes_eq_iff c.client_id a.client_id in (λ h. ground arith, λ h. ground arith)
