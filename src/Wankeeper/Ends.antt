-- ===== src/Wankeeper/Ends.antt =====
-- The loop of exec in wankeeper/replica.go and its test.
use paxi.Common.{
  ℕ, zero, suc, ◌+◌, ◌-◌, ◌<◌, ◌≤◌, ◌≡◌, inl, inr, refl, sym, ◌∙◌, false, leb, none, some, ◌==◌,
  ==_self, arith, Bool-cases, Option-cases,
}
use paxi.Db.{Key}
use paxi.Policy.{Policy}
use paxi.Wankeeper.{Entry, Replica, entry_at}
use paxi.Wankeeper.Leader.{ready, exec_step, exec_loop, exec}

module _ {policy : Policy} where
  -- Every entry of the key is in a slot up to the last one in use.
  abbrev pub InSlots : Replica policy → Key → Type 0
  InSlots r k = (s : ℕ) → r.slot k < s → entry_at r k s ≡ none

  ready-none :
      (r : Replica policy) (k : Key) → InSlots r k → r.slot k < r.executed k → ready r k ≡ none
  unfolding ready
  ready-none r k inside past = rw (ready, inside (r.executed k) past) refl

  ready-there :
      (r : Replica policy) (k : Key) (e : Entry)
      → ready r k ≡ some e
      → InSlots r k
      → r.executed k ≤ r.slot k
  ready-there r k e go inside = elim (Bool-cases (leb (r.executed k) (r.slot k))) [
    | inl low ↦ ground (arith, low)
    | inr past ↦
        let stop = ready-none r k inside (ground (arith, past)) in
        let clash : none ≡ some e = sym stop ∙ go in cc clash
  ]

  exec_step-InSlots :
      (r : Replica policy) (k : Key) (e : Entry)
      → InSlots r k
      → r.executed k ≤ r.slot k
      → InSlots (exec_step r k e) k
        × ((exec_step r k e).executed k ≡ suc (r.executed k))
        × ((exec_step r k e).slot k ≡ r.slot k)
  unfolding exec_step entry_at
  exec_step-InSlots r k e inside low = (
    λ s above.
        let apart : (r.executed k == s) ≡ false = ground (arith, above, low) in
        rw (entry_at, ==_self k, apart) (inside s above),
    rw (==_self k) refl,
    refl,
  )

  exec_loop-ready :
      (fuel : ℕ) (r : Replica policy) (k : Key)
      → InSlots r k
      → r.slot k < r.executed k + fuel
      → ready (exec_loop fuel r k).0 k ≡ none
  unfolding exec_loop
  exec_loop-ready zero r k inside enough = ready-none r k inside (omega (arith, enough))
  exec_loop-ready (suc fuel) r k inside enough = elim (Option-cases (ready r k)) [
    | inl stop ↦ rw (exec_loop, stop) stop
    | inr (e, go) ↦
        let (inside', next, same) = exec_step-InSlots r k e inside (ready-there r k e go inside) in
        rw (exec_loop, go)
          (exec_loop-ready fuel (exec_step r k e) k inside' (omega (arith, enough, next, same)))
  ]

  -- exec ends by its own test: when every entry of the key is in a slot up to the last one in use, no
  -- committed entry is next in the execution order of the key afterwards.
  pub exec-ready : (r : Replica policy) (k : Key) → InSlots r k → ready (exec r k).0 k ≡ none
  unfolding exec
  exec-ready r k inside = exec_loop-ready (suc (r.slot k) - r.executed k) r k inside (omega arith)
