-- ===== src/Kpaxos/Keys.antt =====
-- The instances of kpaxos/replica.go, key by key, and the decisions that they know.
use paxi.Common.{
  ℕ, ◌≡◌, refl, sym, ap, ◌∙◌, subst, false, Option, none, some, List, [], ◌∷◌, ◌==◌, ==→eq,
  if◌then◌else◌, put, arith, All, inl, inr, Bool-cases, Option-cases,
}
use paxi.Db.{Key, Command}
use paxi.Paxos.{Paxos, Setup, P3, commit_to, new_paxos}
use paxi.Paxos
use paxi.Paxos.Phase2
use paxi.Paxos.Exec.Run.{Bounded}
use paxi.Paxos.Slots.{deliver-Bounded, new_paxos-Bounded}
use paxi.Paxos.Commit.{decision}
use paxi.Paxos.Commit.Decide.{decision_stays}
use paxi.Kpaxos.{
  Message, keyed, Output, Replica, makes_instance, init, keep, run_instance, deliver, run,
}

-- What a replica knows to be decided in a slot of a key.
abbrev pub decision_of : Option Paxos → ℕ → Option Command
decision_of none s = none
decision_of (some p) s = decision p s

-- Every instance has its entries in the slots in use.
abbrev pub AllBounded : Replica → Type 0
AllBounded r = (k : Key) (p : Paxos) → r.instances k ≡ some p → Bounded p

unfoldable pub key_decision : Replica → Key → ℕ → Option Command
key_decision r k s = decision_of (r.instances k) s

-- A commit message for the slot of the key carries the command.
abbrev pub Agrees : Key → ℕ → Command → Message → Type 0
Agrees k s c (keyed j m) = (a : P3) → m ≡ commit_to a → j ≡ k → a.slot ≡ s → a.command ≡ c

pub some_injective {ℓ} : {A : Type ℓ} {a b : A} → ◌≡◌ {A = Option A} (some a) (some b) → a ≡ b
some_injective {a = a} h = ap (λ o. elim o [ none ↦ a | some t ↦ t ]) h

init-other : (r : Replica) (k j : Key) → (k == j) ≡ false → (init r k).instances j ≡ r.instances j
unfolding init
init-other r k j apart = elim (Option-cases (r.instances k)) [
  | inl missing ↦ rw (init, missing, apart) refl
  | inr (p, has) ↦ rw (init, has) refl
]

init-same :
    (r : Replica) (k : Key) (p : Paxos) → r.instances k ≡ some p → (init r k).instances k ≡ some p
unfolding init
init-same r k p has = rw (init, has) has

init-AllBounded : (r : Replica) (k : Key) → AllBounded r → AllBounded (init r k)
unfolding init
init-AllBounded r k h = elim (Option-cases (r.instances k)) [
  | inl missing ↦
      rw (init, missing)
        (λ j p has. elim (Bool-cases (k == j)) [
          | inl same ↦ subst Bounded (some_injective (rw same at has)) (new_paxos-Bounded r.db)
          | inr apart ↦ h j p (rw apart at has)
        ])
  | inr (q, has) ↦ rw (init, has) h
]

module _ (setup : Setup) where
  -- What a run of an instance did.
  run_instance_lem :
      (r r' : Replica) (k : Key) (m : Paxos.Message) (out : List Output)
      → run_instance setup r k m ≡ some (r', out)
      → (p : Paxos) × (t : Paxos × List Paxos.Output) × (r.instances k ≡ some p)
        × (Paxos.Phase2.deliver setup (record p { db = r.db }) m ≡ some t)
        × (keep r k t ≡ (r', out))
  unfolding run_instance
  run_instance_lem r r' k m out h = elim (Option-cases (r.instances k)) [
    | inl missing ↦ let fails = rw (run_instance, missing) at h in absurd (ground arith)
    | inr (p, has) ↦ elim (Option-cases (Paxos.Phase2.deliver setup (record p { db = r.db }) m)) [
      | inl stops ↦ let fails = rw (run_instance, has, stops) at h in absurd (ground arith)
      | inr (t, runs) ↦ (p, t, has, runs, some_injective (rw (run_instance, has, runs) at h))
    ]
  ]

  -- A message for one key changes no instance of another.
  pub deliver_apart :
      (r r' : Replica) (k j : Key) (m : Paxos.Message) (out : List Output)
      → deliver setup r (keyed k m) ≡ some (r', out)
      → (k == j) ≡ false
      → r'.instances j ≡ r.instances j
  unfolding deliver
  deliver_apart r r' k j m out h apart =
      let (p, t, has, runs, kept) =
        run_instance_lem (if makes_instance m then init r k else r) r' k m out h in
      let here : put (if makes_instance m then init r k else r).instances k (some t.0) j
          ≡ (if makes_instance m then init r k else r).instances j =
        rw apart refl in
      sym (ap (λ u. u.0.instances j) kept)
      ∙ (here ∙ elim (Bool-cases (makes_instance m)) [
        | inl makes ↦ rw makes (init-other r k j apart)
        | inr keeps ↦ rw keeps refl
      ])

  pub deliver-AllBounded :
      (r r' : Replica) (k : Key) (m : Paxos.Message) (out : List Output)
      → AllBounded r
      → deliver setup r (keyed k m) ≡ some (r', out)
      → AllBounded r'
  unfolding deliver
  deliver-AllBounded r r' k m out h ran =
      let r0 = if makes_instance m then init r k else r in
      let h0 : AllBounded r0 = elim (Bool-cases (makes_instance m)) [
        | inl makes ↦ rw makes (init-AllBounded r k h)
        | inr keeps ↦ rw keeps h
      ] in
      let (p, t, has, runs, kept) = run_instance_lem r0 r' k m out ran in
      subst (λ u. AllBounded u.0) kept
        (λ j q at_j. elim (Bool-cases (k == j)) [
          | inl same ↦
              subst Bounded (some_injective (rw same at at_j))
                (deliver-Bounded setup (record p { db = r0.db }) m t.0 t.1 (h0 k p has) runs)
          | inr apart ↦ h0 j q (rw apart at at_j)
        ])

  pub deliver-key_decision :
      (r r' : Replica) (k j : Key) (m : Paxos.Message) (out : List Output) (s : ℕ) (c : Command)
      → AllBounded r
      → deliver setup r (keyed j m) ≡ some (r', out)
      → key_decision r k s ≡ some c
      → ((a : P3) → m ≡ commit_to a → j ≡ k → a.slot ≡ s → a.command ≡ c)
      → key_decision r' k s ≡ some c
  unfolding deliver key_decision
  deliver-key_decision r r' k j m out s c h ran known agree = elim (Bool-cases (j == k)) [
    | inr apart ↦ ap (λ o. decision_of o s) (deliver_apart r r' j k m out ran apart) ∙ known
    | inl same ↦ elim (Option-cases (r.instances k)) [
      | inl missing ↦ let never = rw missing at known in absurd (ground arith)
      | inr (p, has) ↦
          let here : j ≡ k = ==→eq j k same in
          let r0 = if makes_instance m then init r j else r in
          let has_j : r.instances j ≡ some p = ap r.instances here ∙ has in
          let has0 : r0.instances j ≡ some p = elim (Bool-cases (makes_instance m)) [
            | inl makes ↦ rw makes (init-same r j p has_j)
            | inr keeps ↦ rw keeps has_j
          ] in
          let (q, t, has_q, runs, kept) = run_instance_lem r0 r' j m out ran in
          let q_is : q ≡ p = some_injective (sym has_q ∙ has0) in
          let decided_q : decision q s ≡ some c = ap (λ q. decision q s) q_is ∙ (rw has at known) in
          let after =
            decision_stays setup (record q { db = r0.db }) m t.0 t.1 s c
              (subst Bounded (sym q_is) (h k p has)) runs decided_q (λ a is. agree a is here) in
          subst (λ u. decision_of (u.0.instances k) s ≡ some c) kept (rw same after)
    ]
  ]

  -- Whatever messages a replica handles, for whichever keys, a slot that it knows to be decided for
  -- a key stays decided with the same command, when the commit messages for that key and slot carry
  -- it too.
  pub run-key_decision :
      (r r' : Replica) (k : Key) (s : ℕ) (c : Command) (ms : List Message)
      → AllBounded r
      → run setup r ms ≡ some r'
      → key_decision r k s ≡ some c
      → All (Agrees k s c) ms
      → key_decision r' k s ≡ some c
  unfolding run
  run-key_decision r r' k s c [] h ran known agree =
      subst (λ q. key_decision q k s ≡ some c) (some_injective ran) known
  run-key_decision r r' k s c (keyed j m ∷ ms) h ran known (agree, agrees) =
      elim (Option-cases (deliver setup r (keyed j m))) [
        | inl fails ↦ let never = rw (run, fails) at ran in absurd (ground arith)
        | inr ((r1, out), goes) ↦
            run-key_decision r1 r' k s c ms (deliver-AllBounded r r1 j m out h goes)
              (rw (run, goes) at ran) (deliver-key_decision r r1 k j m out s c h goes known agree)
              agrees
      ]
