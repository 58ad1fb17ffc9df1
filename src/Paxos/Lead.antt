-- ===== src/Paxos/Lead.antt =====
-- paxos/paxos.go: what a node proposes when phase 1 has its quorum.
pub mod Propose
use mathlib.Core.List.{map}
use mathlib.Core.Path.{fun_ext}
use paxi.Common.{
  ℕ, zero, suc, ◌+◌, ◌-◌, ◌<◌, ◌≤◌, ◌≡◌, refl, sym, ap, ◌∙◌, inl, inr, Bool, true, false, Option,
  none, some, List, [], ◌∷◌, ◌++◌, ◌==◌, ==→eq, if◌then◌else◌, put, put_same, arith, Bool-cases,
  Option-cases, length, get_elem?, ltb, leb, ◌&&◌,
}
use native.Mathlib.Decide.{dec_lt}
use paxi.Ballot.{Ballot}
use paxi.Quorum.{new_quorum, ack}
use paxi.Message.{Request}
use paxi.Paxos.{
  CommandBallot, Output, broadcast, multicast_quorum, accept, Message, Entry, Paxos, Setup,
}
use paxi.Paxos.Phase1.{repropose, propose, start_phase2, lead, uncommitted}
use paxi.Paxos.Snapshot.{uncommitted-none, uncommitted_skip, uncommitted_take, entry_command}

module _ (setup : Setup) where
  -- An uncommitted entry is taken over under the new ballot, with a quorum of its own.
  unfoldable pub take_over : Ballot → Option Entry → Option Entry
  take_over b none = none
  take_over b (some e) =
      if e.commit
      then some e
      else some (record e { ballot = b; quorum = some (ack new_quorum setup.own) })

  abbrev pub announce : Ballot → ℕ × CommandBallot → Output
  announce b (s, cb) = broadcast (accept (record { ballot = b; slot = s; command = cb.command }))

  take_over-committed : (b : Ballot) (e : Entry) → e.commit ≡ true → take_over b (some e) ≡ some e
  unfolding take_over
  take_over-committed b e c = simp c

  take_over-open :
      (b : Ballot) (e : Entry)
      → e.commit ≡ false
      → take_over b (some e)
        ≡ some (record e { ballot = b; quorum = some (ack new_quorum setup.own) })
  unfolding take_over
  take_over-open b e c = simp c

  repropose-none :
      (b : Ballot) (log : ℕ → Option Entry) (i k : ℕ)
      → log i ≡ none
      → repropose setup b log i (suc k) ≡ repropose setup b log (suc i) k
  unfolding repropose
  repropose-none b log i k h = rw (h, repropose)

  repropose_skip :
      (b : Ballot) (log : ℕ → Option Entry) (i k : ℕ) (e : Entry)
      → log i ≡ some e
      → e.commit ≡ true
      → repropose setup b log i (suc k) ≡ repropose setup b log (suc i) k
  unfolding repropose
  repropose_skip b log i k e h c = rw (h, repropose, c)

  repropose_take :
      (b : Ballot) (log : ℕ → Option Entry) (i k : ℕ) (e : Entry)
      → log i ≡ some e
      → e.commit ≡ false
      → let rest = repropose setup b (put log i (take_over b (some e))) (suc i) k in
        repropose setup b log i (suc k) ≡ (rest.0, announce b (i, entry_command e) ∷ rest.1)
  unfolding repropose
  repropose_take b log i k e h c = rw (take_over-open b e c, h, repropose) (simp c)

  -- One round of the loop, whatever stands in the slot.
  repropose-suc :
      (b : Ballot) (log : ℕ → Option Entry) (i k : ℕ)
      → (repropose setup b log i (suc k)).0
        ≡ (repropose setup b (put log i (take_over b (log i))) (suc i) k).0
  unfolding take_over
  repropose-suc b log i k = elim (Option-cases (log i)) [
    | inl h ↦
        let kept : put log i (take_over b none) ≡ log = put_same log i none h in
        rw (repropose-none b log i k h, h, kept)
    | inr (e, h) ↦ elim (Bool-cases e.commit) [
      | inl c ↦
          rw (
            repropose_skip b log i k e h c,
            h,
            take_over-committed b e c,
            put_same log i (some e) h,
          )
      | inr c ↦ rw (repropose_take b log i k e h c, h)
    ]
  ]

  -- The loop takes over the slots of its range, each in its place.
  pub repropose-log :
      (b : Ballot) (log : ℕ → Option Entry) (i k s : ℕ)
      → (repropose setup b log i k).0 s
        ≡ (if leb i s && ltb s (i + k) then take_over b (log s) else log s)
  repropose-log b log i zero s = unfold repropose in ground arith
  repropose-log b log i (suc k) s =
      let step = ap (λ f. f s) (repropose-suc b log i k) in
      let rest = repropose-log b (put log i (take_over b (log i))) (suc i) k s in
      elim (Bool-cases (i == s)) [
        | inl same ↦ let there = ap (λ j. take_over b (log j)) (==→eq i s same) in ground arith
        | inr apart ↦ ground arith
      ]

  -- A change below the range does not matter to what is announced.
  uncommitted-put :
      (log : ℕ → Option Entry) (o : Option Entry) (j i k : ℕ)
      → j < i
      → uncommitted (put log j o) i k ≡ uncommitted log i k
  unfolding uncommitted
  uncommitted-put log o j i zero h = refl
  uncommitted-put log o j i (suc k) h =
      ground (arith, uncommitted-put log o j (suc i) k (omega arith))

  -- What the loop broadcasts is an accept for each entry that a promise would report.
  pub repropose-out :
      (b : Ballot) (log : ℕ → Option Entry) (i k : ℕ)
      → (repropose setup b log i k).1 ≡ map (announce b) (uncommitted log i k)
  repropose-out b log i zero = unfold repropose uncommitted in refl
  repropose-out b log i (suc k) = elim (Option-cases (log i)) [
    | inl h ↦
        rw (repropose-none b log i k h, uncommitted-none log i k h) (repropose-out b log (suc i) k)
    | inr (e, h) ↦ elim (Bool-cases e.commit) [
      | inl c ↦
          rw (repropose_skip b log i k e h c, uncommitted_skip log i k e h c)
            (repropose-out b log (suc i) k)
      | inr c ↦
          rw (repropose_take b log i k e h c, uncommitted_take log i k e h c)
            (ap (λ t. announce b (i, entry_command e) ∷ t)
              (repropose-out b (put log i (take_over b (some e))) (suc i) k
                ∙ ap (λ l. map (announce b) l) (uncommitted-put log _ i (suc i) k (omega arith))))
    ]
  ]
