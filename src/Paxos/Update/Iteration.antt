-- ===== src/Paxos/Update/Iteration.antt =====
-- paxos/paxos.go: `update` ranges over a Go map, whose order of iteration is not defined.
use mathlib.Core.Path.{fun_ext}
use paxi.Common.{
  ℕ, ◌≡◌, refl, sym, ap, ◌∙◌, inl, inr, Option, none, some, List, [], ◌∷◌, ◌==◌, ==→eq,
  if◌then◌else◌, arith, Bool-cases, Option-cases, In, Distinct, subst,
}
use paxi.Paxos.{CommandBallot, Entry, Paxos}
use paxi.Paxos.Phase1.{update}
use paxi.Paxos.Update.{merge, merge_all, update-log, update-same, update-slots_ge, update-slots_le}

-- The keys of a map, in the order of an iteration.
abbrev pub slots_of : List (ℕ × CommandBallot) → List ℕ
slots_of [] = []
slots_of ((j, cb) ∷ scb) = j ∷ slots_of scb

find_slot : ℕ → List (ℕ × CommandBallot) → Option CommandBallot
find_slot s [] = none
find_slot s ((j, cb) ∷ scb) = if j == s then some cb else find_slot s scb

merge_found : Option Entry → Option CommandBallot → Option Entry
merge_found o none = o
merge_found o (some cb) = merge o cb

merge_all_absent :
    (s : ℕ) (o : Option Entry) (scb : List (ℕ × CommandBallot))
    → (In s (slots_of scb) → ⊥)
    → merge_all s o scb ≡ o
unfolding merge_all
merge_all_absent s o [] h = refl
merge_all_absent s o ((j, cb) ∷ scb) h = elim (Bool-cases (j == s)) [
  | inl same ↦ absurd (h (inl (sym (==→eq j s same))))
  | inr apart ↦ rw apart (merge_all_absent s o scb (λ i. h (inr i)))
]

-- With every slot once, the merge is with the one command for the slot.
merge_all-find :
    (s : ℕ) (o : Option Entry) (scb : List (ℕ × CommandBallot))
    → Distinct (slots_of scb)
    → merge_all s o scb ≡ merge_found o (find_slot s scb)
unfolding merge_all find_slot merge_found
merge_all-find s o [] d = refl
merge_all-find s o ((j, cb) ∷ scb) (fresh, d) = elim (Bool-cases (j == s)) [
  | inl same ↦ rw same (
      merge_all_absent s (merge o cb) scb
        (λ i. fresh (subst (λ k. In k (slots_of scb)) (sym (==→eq j s same)) i)))
  | inr apart ↦ rw apart (merge_all-find s o scb d)
]

In-slots_of :
    (s : ℕ) (cb : CommandBallot) (scb : List (ℕ × CommandBallot))
    → In (s, cb) scb
    → In s (slots_of scb)
In-slots_of s cb [] i = absurd i
In-slots_of s cb ((j, kb) ∷ scb) (inl e) = inl (ap (λ t. t.0) e)
In-slots_of s cb ((j, kb) ∷ scb) (inr i) = inr (In-slots_of s cb scb i)

find_slot-In :
    (s : ℕ) (cb : CommandBallot) (scb : List (ℕ × CommandBallot))
    → find_slot s scb ≡ some cb
    → In (s, cb) scb
unfolding find_slot
find_slot-In s cb [] h = cc
find_slot-In s cb ((j, kb) ∷ scb) h = elim (Bool-cases (j == s)) [
  | inl same ↦ inl (ground (arith, ==→eq j s same))
  | inr apart ↦ inr (find_slot-In s cb scb (rw apart at h))
]

In-find_slot :
    (s : ℕ) (cb : CommandBallot) (scb : List (ℕ × CommandBallot))
    → Distinct (slots_of scb)
    → In (s, cb) scb
    → find_slot s scb ≡ some cb
unfolding find_slot
In-find_slot s cb [] d i = absurd i
In-find_slot s cb ((j, kb) ∷ scb) (fresh, d) (inl e) =
    let at_j : s ≡ j = ap (λ t. t.0) e in let same_cb : cb ≡ kb = ap (λ t. t.1) e in ground arith
In-find_slot s cb ((j, kb) ∷ scb) (fresh, d) (inr i) = elim (Bool-cases (j == s)) [
  | inl same ↦
      absurd
        (fresh (subst (λ k. In k (slots_of scb)) (sym (==→eq j s same)) (In-slots_of s cb scb i)))
  | inr apart ↦ rw apart (In-find_slot s cb scb d i)
]

-- Two iterations over one map.
pub record SameMap (a b : List (ℕ × CommandBallot)) : Type 0 where
  pub once_a : Distinct (slots_of a)
  pub once_b : Distinct (slots_of b)
  pub a_in_b : (s : ℕ) (cb : CommandBallot) → In (s, cb) a → In (s, cb) b
  pub b_in_a : (s : ℕ) (cb : CommandBallot) → In (s, cb) b → In (s, cb) a

SameMap-find :
    {a b : List (ℕ × CommandBallot)} → SameMap a b → (s : ℕ) → find_slot s a ≡ find_slot s b
SameMap-find {a} {b} m s = elim (Option-cases (find_slot s a)) [
  | inl e ↦ elim (Option-cases (find_slot s b)) [
    | inl f ↦ e ∙ sym f
    | inr (cb, f) ↦
        let back = In-find_slot s cb a m.once_a (m.b_in_a s cb (find_slot-In s cb b f)) in cc
  ]
  | inr (cb, e) ↦ e ∙ sym (In-find_slot s cb b m.once_b (m.a_in_b s cb (find_slot-In s cb a e)))
]

logs_eq :
    (p : Paxos) (a b : List (ℕ × CommandBallot))
    → SameMap a b
    → (s : ℕ) → (update p a).log s ≡ (update p b).log s
logs_eq p a b m s = rw (
  update-log p a s,
  update-log p b s,
  merge_all-find s (p.log s) a m.once_a,
  merge_all-find s (p.log s) b m.once_b,
  SameMap-find m s,
)

-- The result of `update` does not depend on the order in which the promised log is iterated.
pub update_iteration :
    (p : Paxos) (a b : List (ℕ × CommandBallot)) → SameMap a b → update p a ≡ update p b
update_iteration p a b m =
    let same_a = update-same p a in
    let same_b = update-same p b in
    let slots_eq : (update p a).slots ≡ (update p b).slots =
      let ge_a = update-slots_ge p a in
      let ge_b = update-slots_ge p b in
      omega (
        arith,
        update-slots_le p a (update p b).slots ge_b.0 (λ j cb i. ge_b.1 j cb (m.a_in_b j cb i)),
        update-slots_le p b (update p a).slots ge_a.0 (λ j cb i. ge_a.1 j cb (m.b_in_a j cb i)),
      ) in
    λ i. record {
      log = fun_ext (logs_eq p a b m) i;
      execute = (same_a.1 ∙ sym same_b.1) i;
      active = (same_a.2 ∙ sym same_b.2) i;
      ballot = (same_a.0 ∙ sym same_b.0) i;
      slots = slots_eq i;
      quorum = (same_a.3 ∙ sym same_b.3) i;
      requests = (same_a.4 ∙ sym same_b.4) i;
      db = (same_a.5 ∙ sym same_b.5) i;
    }
