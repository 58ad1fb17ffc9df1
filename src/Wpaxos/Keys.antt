-- ===== src/Wpaxos/Keys.antt =====
-- The instances of wpaxos/replica.go against those of kpaxos/replica.go, and what they decide.
use paxi.Common.{
  ℕ, ◌≡◌, inl, inr, refl, sym, ap, ◌∙◌, Option, none, some, List, bytes_eq, ◌==◌, ◌&&◌, ==→eq,
  arith, Bool-cases, Option-cases,
}
use mathlib.Core.List.{map}
use paxi.Db.{Key, Command}
use paxi.Paxos
use paxi.Paxos.{P3, Paxos, Setup, commit_to}
use paxi.Paxos.Phase1.{start_phase1}
use paxi.Paxos.Phase2
use paxi.Paxos.Exec.Run.{decided}
use paxi.Policy.{Policy}
use paxi.Kpaxos
use paxi.Kpaxos.{makes_instance, wrap}
use paxi.Kpaxos.Keys.{
  AllBounded, key_decision, decision_of, Agrees, deliver-key_decision, some_injective,
}
use paxi.Wpaxos.Replica.{
  LeaderChange, Message, Output, of_instance, keyed, leader_change, Replica, init, run_instance,
  handle_leader_change, deliver,
}

-- A commit message for the slot of the key carries the command.
abbrev pub Carries : Key → ℕ → Command → Message → Type 0
Carries k s c (keyed j m) = Agrees k s c (Kpaxos.keyed j m)
Carries k s c (leader_change m) = Unit

start_phase1-log : (setup : Setup) (p : Paxos) → (start_phase1 setup p).0.log ≡ p.log
unfolding start_phase1
start_phase1-log setup p = elim (Bool-cases p.active) [
  | inl active ↦ rw (start_phase1, active) refl
  | inr idle ↦ rw (start_phase1, idle) refl
]

module _ {policy : Policy} where
  -- The same instances in a KPaxos replica that works on the key.
  abbrev pub as_kpaxos : Replica policy → Key → Kpaxos.Replica
  as_kpaxos r k = record { instances = r.instances; db = r.db; key = k }

  -- The result of KPaxos, with the policies.
  abbrev pub of_kpaxos :
      Replica policy
      → Option (Kpaxos.Replica × List Kpaxos.Output)
      → Option (Replica policy × List Output)
  of_kpaxos r none = none
  of_kpaxos r (some s) =
      some (record r { instances = s.0.instances; db = s.0.db }, map of_instance s.1)

  init-eq : (r : Replica policy) (k : Key) → Kpaxos.init (as_kpaxos r k) k ≡ as_kpaxos (init r k) k
  unfolding init Kpaxos.init
  init-eq r k = elim (Option-cases (r.instances k)) [
    | inl missing ↦ rw (init, Kpaxos.init, missing) refl
    | inr (p, has) ↦ rw (init, Kpaxos.init, has) refl
  ]

module _ {policy : Policy} (setup : Setup) where
  run_instance-eq :
      (r : Replica policy) (k : Key) (m : Paxos.Message)
      → run_instance setup r k m ≡ of_kpaxos r (Kpaxos.run_instance setup (as_kpaxos r k) k m)
  unfolding run_instance Kpaxos.run_instance
  run_instance-eq r k m = elim (Option-cases (r.instances k)) [
    | inl missing ↦ rw (run_instance, Kpaxos.run_instance, of_kpaxos, missing) refl
    | inr (p, has) ↦ elim (Option-cases (Paxos.Phase2.deliver setup (record p { db = r.db }) m)) [
      | inl stops ↦ rw (run_instance, Kpaxos.run_instance, of_kpaxos, has, stops) refl
      | inr (t, runs) ↦ rw (run_instance, Kpaxos.run_instance, of_kpaxos, has, runs) refl
    ]
  ]

  of_kpaxos-init :
      (r : Replica policy) (k : Key) (o : Option (Kpaxos.Replica × List Kpaxos.Output))
      → of_kpaxos (init r k) o ≡ of_kpaxos r o
  unfolding init
  of_kpaxos-init r k none = refl
  of_kpaxos-init r k (some s) = elim (Option-cases (r.instances k)) [
    | inl missing ↦ rw (init, missing) refl
    | inr (p, has) ↦ rw (init, has) refl
  ]

  -- A message of Paxos for a key leaves the instances and the store, and sends the messages, that
  -- the replica of KPaxos leaves and sends; the policies stay, and it panics when that one does.
  pub deliver-eq-deliver :
      (r : Replica policy) (k : Key) (m : Paxos.Message)
      → deliver setup r (keyed k m)
        ≡ of_kpaxos r (Kpaxos.deliver setup (as_kpaxos r k) (Kpaxos.keyed k m))
  unfolding deliver Kpaxos.deliver
  deliver-eq-deliver r k m = elim (Bool-cases (makes_instance m)) [
    | inr keeps ↦ rw keeps (run_instance-eq r k m)
    | inl makes ↦ rw makes (
        run_instance-eq (init r k) k m
        ∙ (of_kpaxos-init r k _
            ∙ ap (λ x. of_kpaxos r (Kpaxos.run_instance setup x k m)) (sym (init-eq r k))))
  ]

  handle_leader_change-key_decision :
      (r r' : Replica policy) (m : LeaderChange) (out : List Output) (k : Key) (s : ℕ)
      → handle_leader_change setup r m ≡ some (r', out)
      → key_decision (as_kpaxos r' k) k s ≡ key_decision (as_kpaxos r k) k s
  unfolding handle_leader_change key_decision
  handle_leader_change-key_decision r r' m out k s ran = elim (Option-cases (r.instances m.key)) [
    | inl missing ↦ let never = rw (handle_leader_change, missing) at ran in absurd (ground arith)
    | inr (p, has) ↦
        let t = start_phase1 setup (record p { db = r.db }) in
        elim (Bool-cases (m.ballot == p.ballot && bytes_eq m.to setup.own)) [
          | inr stays ↦
              ap (λ u. decision_of (u.0.instances k) s)
                (sym (some_injective (rw (handle_leader_change, has, stays) at ran)))
          | inl takes ↦
              ap (λ u. decision_of (u.0.instances k) s)
                (sym (some_injective (rw (handle_leader_change, has, takes) at ran)))
              ∙ elim (Bool-cases (m.key == k)) [
                | inr apart ↦ rw apart refl
                | inl same ↦
                    let has_k : r.instances k ≡ some p =
                      ap r.instances (sym (==→eq m.key k same)) ∙ has in
                    rw (same, has_k)
                      (ap (λ l. decided (l s)) (start_phase1-log setup (record p { db = r.db })))
              ]
        ]
  ]

  -- Whatever message a replica handles, for whichever key, also one that asks it to take the key over,
  -- a slot that it knows to be decided for a key stays decided with the same command, when
  -- a commit message for that key and slot carries it too and every instance has its entries in
  -- the slots in use.
  pub deliver_keeps_decision :
      (r r' : Replica policy) (m : Message) (out : List Output) (k : Key) (s : ℕ) (c : Command)
      → AllBounded (as_kpaxos r k)
      → deliver setup r m ≡ some (r', out)
      → key_decision (as_kpaxos r k) k s ≡ some c
      → Carries k s c m
      → key_decision (as_kpaxos r' k) k s ≡ some c
  unfolding deliver key_decision
  deliver_keeps_decision r r' (leader_change m) out k s c bounded ran known carries =
      handle_leader_change-key_decision r r' m out k s ran ∙ known
  deliver_keeps_decision r r' (keyed j m) out k s c bounded ran known carries =
      elim (Option-cases (Kpaxos.deliver setup (as_kpaxos r j) (Kpaxos.keyed j m))) [
        | inl fails ↦
            let never = rw fails at (sym (deliver-eq-deliver r j m) ∙ ran) in absurd (ground arith)
        | inr (t, runs) ↦
            let same = some_injective (rw runs at (sym (deliver-eq-deliver r j m) ∙ ran)) in
            let kept =
              deliver-key_decision setup (as_kpaxos r j) t.0 k j m t.1 s c bounded runs known
                carries in
            (ap (λ u. decision_of (u.0.instances k) s) (sym same) ∙ kept)
      ]
