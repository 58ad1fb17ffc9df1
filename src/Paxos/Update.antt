-- ===== src/Paxos/Update.antt =====
-- paxos/paxos.go: what `update` makes of a promised log, and what HandleP1a puts into one.
pub mod Iteration
use paxi.Common.{
  ℕ, zero, suc, ◌+◌, ◌-◌, ◌<◌, ◌≤◌, ◌≡◌, refl, sym, ap, ◌∙◌, ◌⊎◌, inl, inr, ◌↔◌, Bool, true, false,
  not, ◌&&◌, Option, none, some, List, [], ◌∷◌, ◌++◌, ltb, ◌==◌, ==→eq, ==_self, if◌then◌else◌, put,
  arith, Bool-cases, Option-cases, In, Distinct, length,
}
use native.Mathlib.Decide.{dec_lt}
use paxi.Ballot.{Ballot}
use paxi.Db.{Command}
use paxi.Paxos.{CommandBallot, Entry, Paxos}
use paxi.Paxos.Phase1.{max_slot, update, update_entry, uncommitted}
use paxi.Paxos.Exec.Run.{Bounded}

-- The entry of a slot after one promised command for it.
unfoldable pub merge : Option Entry → CommandBallot → Option Entry
merge none cb = some (record {
  ballot = cb.ballot;
  command = cb.command;
  commit = false;
  request = none;
  quorum = none;
})
merge (some e) cb =
    if not e.commit && ltb e.ballot cb.ballot
    then some (record e { ballot = cb.ballot; command = cb.command })
    else some e

-- The entry of slot `s` after the promised commands that are for it.
pub merge_all : ℕ → Option Entry → List (ℕ × CommandBallot) → Option Entry
merge_all s o [] = o
merge_all s o ((j, cb) ∷ scb) = merge_all s (if j == s then merge o cb else o) scb

pub update_entry-log :
    (p : Paxos) (j : ℕ) (cb : CommandBallot) (s : ℕ)
    → (update_entry p j cb).log s ≡ (if j == s then merge (p.log s) cb else p.log s)
unfolding update_entry merge
update_entry-log p j cb s = elim (Bool-cases (j == s)) [
  | inl same ↦
      rw (← ==→eq j s same, ==_self j)
        (elim (Option-cases (p.log j)) [
          | inl e ↦ rw (e, merge) (ground arith)
          | inr (e, h) ↦ ground arith
        ])
  | inr apart ↦
      rw apart (elim (Option-cases (p.log j)) [ inl e ↦ ground arith | inr (e, h) ↦ ground arith ])
]

-- Each slot is merged on its own.
pub update-log :
    (p : Paxos) (scb : List (ℕ × CommandBallot)) (s : ℕ)
    → (update p scb).log s ≡ merge_all s (p.log s) scb
unfolding update merge_all
update-log p [] s = refl
update-log p ((j, cb) ∷ scb) s =
    update-log (update_entry p j cb) scb s ∙ ap (λ o. merge_all s o scb) (update_entry-log p j cb s)

-- What `update` leaves alone.
pub update-same :
    (p : Paxos) (scb : List (ℕ × CommandBallot))
    → ((update p scb).ballot ≡ p.ballot)
      × ((update p scb).execute ≡ p.execute)
      × ((update p scb).active ≡ p.active)
      × ((update p scb).quorum ≡ p.quorum)
      × ((update p scb).requests ≡ p.requests)
      × ((update p scb).db ≡ p.db)
unfolding update update_entry
update-same p [] = (refl, refl, refl, refl, refl, refl)
update-same p ((j, cb) ∷ scb) = update-same (update_entry p j cb) scb

-- `slot` becomes the largest of itself and the slots of the promised log.
pub update-slots_ge :
    (p : Paxos) (scb : List (ℕ × CommandBallot))
    → (p.slots ≤ (update p scb).slots)
      × ((j : ℕ) (cb : CommandBallot) → In (j, cb) scb → j < (update p scb).slots)
unfolding update update_entry
update-slots_ge p [] = (omega arith, λ j cb i. absurd i)
update-slots_ge p ((j, cb) ∷ scb) =
    let rest = update-slots_ge (update_entry p j cb) scb in
    (
      ground arith,
      λ k kb i. elim i [
        | inl e ↦ (let at_j : k ≡ j = ap (λ t. t.0) e in ground arith)
        | inr later ↦ rest.1 k kb later
      ],
    )

pub update-slots_le :
    (p : Paxos) (scb : List (ℕ × CommandBallot)) (n : ℕ)
    → p.slots ≤ n
    → ((j : ℕ) (cb : CommandBallot) → In (j, cb) scb → j < n)
    → (update p scb).slots ≤ n
unfolding update
update-slots_le p [] n small below = small
update-slots_le p ((j, cb) ∷ scb) n small below =
    update-slots_le (update_entry p j cb) scb n
      (unfold update_entry in (let here = below j cb (inl refl) in ground arith))
      (λ k kb i. below k kb (inr i))
