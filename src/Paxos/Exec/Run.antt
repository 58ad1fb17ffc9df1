-- ===== src/Paxos/Exec/Run.antt =====
-- paxos/paxos.go: exec against the sequence of the committed commands.
use paxi.Common.{
  ℕ, zero, suc, ◌-◌, ◌<◌, ◌≤◌, ◌≡◌, refl, sym, ap, ◌∙◌, inl, inr, true, Option, none, some, List,
  [], ◌∷◌, ◌++◌, ◌==◌, ==→eq, if◌then◌else◌, put, arith, Bool-cases, Option-cases,
}
use native.Mathlib.Decide.{dec_lt}
use paxi.Db
use paxi.Db.{Command, Database, execute_all}
use paxi.Paxos.{Entry, Paxos, Output}
use paxi.Paxos.Exec.{exec, exec_loop, exec_step, exec_reply, ready}

-- No entry stands at or above the next slot.
abbrev pub Bounded : Paxos → Type 0
Bounded p = (s : ℕ) → p.slots ≤ s → p.log s ≡ none

abbrev pub IsCommitted : Option Entry → Type 0
IsCommitted o = (e : Entry) × (o ≡ some e) × (e.commit ≡ true)

-- An entry without its request: what the protocol agrees on.
pub body : Option Entry → Option Entry
body none = none
body (some e) = some (record e { request = none })

-- The commands of `k` slots from slot `i` on.
pub commands : (ℕ → Option Entry) → ℕ → ℕ → List Command
commands log i zero = []
commands log i (suc k) = elim (log i) [
  | none ↦ commands log (suc i) k
  | some e ↦ e.command ∷ commands log (suc i) k
]

-- The replies for `k` slots from slot `i` on, each with the value that its command returns.
unfoldable pub replies : (ℕ → Option Entry) → ℕ → ℕ → Database → List Output
replies log i zero d = []
replies log i (suc k) d = elim (log i) [
  | none ↦ replies log (suc i) k d
  | some e ↦
      exec_reply i e (Db.execute d e.command).1 ++ replies log (suc i) k (Db.execute d e.command).0
]

-- `p'` and `out` are what running the committed slots of `p` up to the first other one gives.
pub record Runs (p p' : Paxos) (out : List Output) : Type 0 where
  pub advanced : p.execute ≤ p'.execute
  pub committed : (s : ℕ) → p.execute ≤ s → s < p'.execute → IsCommitted (p.log s)
  pub executed : p'.db ≡ execute_all p.db (commands p.log p.execute (p'.execute - p.execute))
  pub replied : out ≡ replies p.log p.execute (p'.execute - p.execute) p.db
  pub same_log : (s : ℕ) → body (p'.log s) ≡ body (p.log s)
  pub same_above : (s : ℕ) → p'.execute ≤ s → p'.log s ≡ p.log s
  pub same_ballot : p'.ballot ≡ p.ballot
  pub same_active : p'.active ≡ p.active
  pub same_slots : p'.slots ≡ p.slots
  pub same_quorum : p'.quorum ≡ p.quorum
  pub same_requests : p'.requests ≡ p.requests

-- What a round changes in the log does not matter to the later ones.
commands-put :
    (log : ℕ → Option Entry) (o : Option Entry) (j i k : ℕ)
    → j < i
    → commands (put log j o) i k ≡ commands log i k
unfolding commands
commands-put log o j i zero h = refl
commands-put log o j i (suc k) h = ground (arith, commands-put log o j (suc i) k (omega arith))

replies-put :
    (log : ℕ → Option Entry) (o : Option Entry) (j i k : ℕ) (d : Database)
    → j < i
    → replies (put log j o) i k d ≡ replies log i k d
unfolding replies
replies-put log o j i zero d h = refl
replies-put log o j i (suc k) d h = elim (Option-cases (log i)) [
  | inl e ↦ ground (arith, replies-put log o j (suc i) k d (omega arith))
  | inr (e, e') ↦
      ground (arith, replies-put log o j (suc i) k (Db.execute d e.command).0 (omega arith))
]

ready-none : (p : Paxos) → p.log p.execute ≡ none → ready p ≡ none
unfolding ready
ready-none p h = rw (h, ready)

-- The entry that `ready` gives is the committed one at `execute`.
pub ready-some :
    (p : Paxos) (e : Entry) → ready p ≡ some e → (p.log p.execute ≡ some e) × (e.commit ≡ true)
unfolding ready
ready-some p e h = ground arith

commands-some :
    (log : ℕ → Option Entry) (e : Entry) (i k : ℕ)
    → log i ≡ some e
    → commands log i (suc k) ≡ e.command ∷ commands log (suc i) k
unfolding commands
commands-some log e i k h = rw (h, commands)

replies-some :
    (log : ℕ → Option Entry) (e : Entry) (i k : ℕ) (d : Database)
    → log i ≡ some e
    → replies log i (suc k) d
      ≡ exec_reply i e (Db.execute d e.command).1
        ++ replies log (suc i) k (Db.execute d e.command).0
unfolding replies
replies-some log e i k d h = rw (h, replies)

body-put :
    (log : ℕ → Option Entry) (e : Entry) (i s : ℕ)
    → log i ≡ some e
    → body (put log i (some (record e { request = none })) s) ≡ body (log s)
unfolding body
body-put log e i s h = elim (Bool-cases (i == s)) [
  | inl same ↦ rw (same, ← ==→eq i s same, h)
  | inr apart ↦ rw apart
]

-- A round that `ready` allows, followed by a run of what is left, is a run.
module _ (p p' : Paxos) (out : List Output) (e : Entry) where
  Runs-step :
      ready p ≡ some e
      → Runs (exec_step p e) p' out
      → Runs p p' (exec_reply p.execute e (Db.execute p.db e.command).1 ++ out)
  unfolding exec_step
  Runs-step h r =
      let (here, is_commit) = ready-some p e h in
      let rounds : p'.execute - p.execute ≡ suc (p'.execute - suc p.execute) =
        omega (arith, r.advanced) in
      record {
        advanced = omega (arith, r.advanced);
        committed = λ s lo hi. elim (dec_lt p.execute s) [
          | yes above ↦ let (e', at_s, c) = r.committed s above hi in (e', ground (arith, at_s), c)
          | no below ↦ (e, (let same : s ≡ p.execute = omega arith in rw same here), is_commit)
        ];
        executed =
            rw (rounds, commands-some p.log e p.execute _ here)
              (unfold execute_all in
                (rw (commands-put p.log _ p.execute (suc p.execute) _ (omega arith)) at
                  r.executed));
        replied =
            rw (rounds, replies-some p.log e p.execute _ p.db here)
              (ap (λ t. exec_reply p.execute e (Db.execute p.db e.command).1 ++ t)
                (rw (replies-put p.log _ p.execute (suc p.execute) _ _ (omega arith)) at
                  r.replied));
        same_log = λ s. r.same_log s ∙ body-put p.log e p.execute s here;
        same_above = λ s above. r.same_above s above ∙ (let far = r.advanced in ground arith);
        same_ballot = r.same_ballot;
        same_active = r.same_active;
        same_slots = r.same_slots;
        same_quorum = r.same_quorum;
        same_requests = r.same_requests;
      }

Runs-none : (p : Paxos) → Runs p p []
unfolding commands replies execute_all
Runs-none p =
    let none_left : p.execute - p.execute ≡ 0 = omega arith in
    record {
      advanced = omega arith;
      committed = λ s lo hi. absurd (omega arith);
      executed = rw none_left;
      replied = rw none_left;
      same_log = λ s. refl;
      same_above = λ s h. refl;
      same_ballot = refl;
      same_active = refl;
      same_slots = refl;
      same_quorum = refl;
      same_requests = refl;
    }

-- Whatever the fuel, the loop makes a run.
exec_loop-Runs : (fuel : ℕ) (p : Paxos) → Runs p (exec_loop fuel p).0 (exec_loop fuel p).1
unfolding exec_loop
exec_loop-Runs zero p = Runs-none p
exec_loop-Runs (suc fuel) p = elim (Option-cases (ready p)) [
  | inl stop ↦ rw (stop, exec_loop) (Runs-none p)
  | inr (e, go) ↦ rw (go, exec_loop) (Runs-step p _ _ e go (exec_loop-Runs fuel (exec_step p e)))
]

module _ (p : Paxos) (bounded : Bounded p) where
  ready-lt : (e : Entry) → ready p ≡ some e → p.execute < p.slots
  ready-lt e h = elim (dec_lt p.execute p.slots) [
    | yes below ↦ below
    | no above ↦ cc (bounded p.execute (omega arith), (ready-some p e h).0)
  ]

  exec_step-Bounded : (e : Entry) → ready p ≡ some e → Bounded (exec_step p e)
  unfolding exec_step
  exec_step-Bounded e h s above = ground (arith, ready-lt e h, bounded s above)

-- With enough fuel the loop ends by its own test.
exec_loop-stops :
    (fuel : ℕ) (p : Paxos)
    → Bounded p
    → suc p.slots - p.execute ≤ fuel
    → ready (exec_loop fuel p).0 ≡ none
unfolding exec_loop
exec_loop-stops zero p bounded enough = ready-none p (bounded p.execute (omega arith))
exec_loop-stops (suc fuel) p bounded enough = elim (Option-cases (ready p)) [
  | inl stop ↦ rw (stop, exec_loop) stop
  | inr (e, go) ↦
      rw (go, exec_loop)
        (exec_loop-stops fuel (exec_step p e) (exec_step-Bounded p bounded e go)
          (unfold exec_step in omega arith))
]

-- exec runs exactly the committed slots from `execute` up to the first slot that is not committed:
-- the store afterwards is that of executing their commands in slot order, each held request is
-- answered once, in slot order, with the value of its command, and besides `execute`, the store and
-- the answered requests nothing changes. It ends because all entries stand below `slots`.
pub exec-Runs : (p : Paxos) → Bounded p → Runs p (exec p).0 (exec p).1 × (ready (exec p).0 ≡ none)
unfolding exec
exec-Runs p bounded = (exec_loop-Runs _ p, exec_loop-stops _ p bounded (omega arith))

-- What holds of a run of exec in any state.
pub exec_any : (p : Paxos) → Runs p (exec p).0 (exec p).1
unfolding exec
exec_any p = exec_loop-Runs _ p

pub body-none : (o : Option Entry) → body o ≡ body none → o ≡ none
unfolding body
body-none none h = refl
body-none (some e) h = cc

-- The command of a slot that the node knows to be committed.
unfoldable pub decided : Option Entry → Option Command
decided none = none
decided (some e) = if e.commit then some e.command else none

decided-body : (o : Option Entry) → decided (body o) ≡ decided o
unfolding decided body
decided-body none = refl
decided-body (some e) = refl

-- exec decides nothing, and forgets no decision.
pub exec-decided : (p : Paxos) (s : ℕ) → decided ((exec p).0.log s) ≡ decided (p.log s)
exec-decided p s =
    sym (decided-body ((exec p).0.log s))
    ∙ ap decided ((exec_any p).same_log s)
    ∙ decided-body (p.log s)
