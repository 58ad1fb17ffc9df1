-- ===== src/Paxos/Replica/Read.antt =====
-- What a read of paxos/replica.go that takes no slot answers.
use paxi.Common.{
  ℕ, zero, suc, ◌+◌, ◌-◌, ◌≤◌, ◌<◌, ◌≡◌, ◌⊎◌, refl, sym, ap, ◌∙◌, true, false, Option, none, some,
  List, [], ◌∷◌, ◌==◌, arith, inl, inr, Bool-cases, Option-cases,
}
use native.Mathlib.Decide.{dec_lt}
use paxi.Db.{Key, Value, is_read, get}
use paxi.Db.History.{execute_lem}
use paxi.Message.{Request}
use paxi.Paxos.{Output, reply, Entry, Paxos, Setup}
use paxi.Paxos.Replica.{read_log, read, Flags, reads_locally, answer_read, handle_client}

-- No entry from slot `s` up to `t` is for the key.
abbrev pub Absent : (ℕ → Option Entry) → Key → ℕ → ℕ → Type 0
Absent log key s t =
    (i : ℕ) (e : Entry) → s ≤ i → i < t → log i ≡ some e → (e.command.key == key) ≡ false

-- Slot `i` has the first entry from slot `s` up to `t` that is for the key, and it writes `v`.
pub record First (log : ℕ → Option Entry) (key : Key) (s t : ℕ) (v : Value) : Type 0 where
  pub slot : ℕ
  pub entry : Entry
  pub from : s ≤ slot
  pub below : slot < t
  pub logged : log slot ≡ some entry
  pub for_key : (entry.command.key == key) ≡ true
  pub written : entry.command.value ≡ v
  pub earlier : Absent log key s slot

-- One slot more in front, which is not for the key.
Absent-more :
    (log : ℕ → Option Entry) (key : Key) (s t : ℕ)
    → ((e : Entry) → log s ≡ some e → (e.command.key == key) ≡ false)
    → Absent log key (suc s) t
    → Absent log key s t
Absent-more log key s t front rest i e from below has = elim (dec_lt s i) [
  | yes after ↦ rest i e (omega (arith, after)) below has
  | no first ↦ let here : i ≡ s = omega (arith, first, from) in front e (ap log (sym here) ∙ has)
]

-- What the loop finds up to slot `t`.
abbrev Found : (ℕ → Option Entry) → Key → ℕ → ℕ → Option Value → Type 0
Found log key s t o =
    ((o ≡ none) × Absent log key s t) ⊎ ((v : Value) × (o ≡ some v) × First log key s t v)

Found-more :
    (log : ℕ → Option Entry) (key : Key) (s t : ℕ) (o : Option Value)
    → ((e : Entry) → log s ≡ some e → (e.command.key == key) ≡ false)
    → Found log key (suc s) t o
    → Found log key s t o
Found-more log key s t o front (inl (none_found, absent)) =
    inl (none_found, Absent-more log key s t front absent)
Found-more log key s t o front (inr (v, found, f)) = inr (
  v,
  found,
  record {
    slot = f.slot;
    entry = f.entry;
    from = omega (arith, f.from);
    below = f.below;
    logged = f.logged;
    for_key = f.for_key;
    written = f.written;
    earlier = Absent-more log key s f.slot front f.earlier;
  },
)

read_log_lem :
    (log : ℕ → Option Entry) (key : Key) (s k : ℕ) → Found log key s (s + k) (read_log log key s k)
unfolding read_log
read_log_lem log key s zero = inl (refl, λ i e from below has. absurd (omega (arith, from, below)))
read_log_lem log key s (suc k) =
    let shift : s + suc k ≡ suc s + k = omega arith in
    let rest = read_log_lem log key (suc s) k in
    elim (Option-cases (log s)) [
      | inl missing ↦
          rw (read_log, shift, missing)
            (Found-more log key s (suc s + k) (read_log log key (suc s) k)
              (λ e has. let never = sym missing ∙ has in absurd (ground arith)) rest)
      | inr (e, has) ↦ elim (Bool-cases (e.command.key == key)) [
        | inl for_key ↦
            rw (read_log, shift, has, for_key)
              (inr (
                e.command.value,
                refl,
                record {
                  slot = s;
                  entry = e;
                  from = omega arith;
                  below = omega arith;
                  logged = has;
                  for_key = for_key;
                  written = refl;
                  earlier = λ i e' from below at_i. absurd (omega (arith, from, below));
                },
              ))
        | inr other ↦
            rw (read_log, shift, has, other)
              (Found-more log key s (suc s + k) (read_log log key (suc s) k)
                (λ e' has'.
                  ap (λ o. elim o [ none ↦ false | some x ↦ x.command.key == key ]) (sym has' ∙ has)
                  ∙ other)
                rest)
      ]
    ]

read_lem :
    (p : Paxos) (m : Request)
    → is_read m.command ≡ true
    → ((read p m).0 ≡ p)
      × ((First p.log m.command.key p.execute (p.execute + (p.slots - p.execute)) (read p m).1)
          ⊎ (((read p m).1 ≡ get p.db m.command.key)
              × Absent p.log m.command.key p.execute (p.execute + (p.slots - p.execute))))
unfolding read
read_lem p m is = elim (read_log_lem p.log m.command.key p.execute (p.slots - p.execute)) [
  | inl (none_found, absent) ↦
      let (value, other, same) = execute_lem p.db m.command 0 in
      rw (read, none_found) (ap (λ d. record p { db = d }) (same is), inr (value, absent))
  | inr (v, found, first) ↦ rw (read, found) (refl, inl first)
]

-- What a client is answered in an output.
abbrev pub answered_value : List Output → Option Value
answered_value (reply q a ∷ []) = some a.value
answered_value out = none

-- A read that takes no slot leaves the replica as it is and is answered once: with what the first
-- entry for its key writes, among the slots from `execute` on, and with what the store has for the
-- key when there is none.
pub read_answer :
    (setup : Setup) (flags : Flags) (p : Paxos) (m : Request)
    → is_read m.command ≡ true
    → reads_locally setup flags p m ≡ true
    → ((handle_client setup flags p m).0 ≡ p)
      × ((v : Value) × (answered_value (handle_client setup flags p m).1 ≡ some v)
          × ((First p.log m.command.key p.execute (p.execute + (p.slots - p.execute)) v)
              ⊎ ((v ≡ get p.db m.command.key)
                  × Absent p.log m.command.key p.execute (p.execute + (p.slots - p.execute)))))
unfolding handle_client answer_read
read_answer setup flags p m is local =
    let (same, value) = read_lem p m is in rw local (same, ((read p m).1, refl, value))
