-- ===== src/Vpaxos/Instance/Exec.antt =====
-- The execution loop of vpaxos/paxos.go against that of paxos/paxos.go.
use mathlib.Core.List.{map}
use paxi.Common.{
  ◌≤◌, ◌<◌, ◌∙◌, sym, subst, Option, none, some, put, put_same, ℕ, zero, suc, ◌-◌, ◌≡◌, refl, ap,
  inl, inr, List, [], ◌∷◌, ◌++◌, Option-cases,
}
use paxi.Db
use paxi.Db.{Command, Value, Database, execute_all}
use paxi.Message.{Request}
use paxi.Paxos
use paxi.Paxos.{Entry, Paxos}
use paxi.Paxos.Exec
use paxi.Paxos.Exec.{exec_step, exec_reply}
use paxi.Paxos.Exec.Run.{Bounded, IsCommitted, body, commands, replies, ready-some, exec-Runs}
use paxi.Vpaxos.{Output, send, broadcast, multicast_zone, forward, reply}
use paxi.Vpaxos.Instance.{ready, exec_round, exec_loop, exec}

-- An answer without the properties and the time stamp, which the two protocols fill in differently.
abbrev Answer : Type 0
Answer = Request × (Command × Value)

abbrev pub answers_of : List Output → List Answer
answers_of [] = []
answers_of (reply q a ∷ out) = (q, (a.command, a.value)) ∷ answers_of out
answers_of (send to m ∷ out) = answers_of out
answers_of (broadcast m ∷ out) = answers_of out
answers_of (multicast_zone z m ∷ out) = answers_of out
answers_of (forward to q ∷ out) = answers_of out

abbrev paxos_answers_of : List Paxos.Output → List Answer
paxos_answers_of [] = []
paxos_answers_of (Paxos.reply q a ∷ out) = (q, (a.command, a.value)) ∷ paxos_answers_of out
paxos_answers_of (Paxos.broadcast m ∷ out) = paxos_answers_of out
paxos_answers_of (Paxos.multicast_quorum n m ∷ out) = paxos_answers_of out
paxos_answers_of (Paxos.send to m ∷ out) = paxos_answers_of out
paxos_answers_of (Paxos.forward to q ∷ out) = paxos_answers_of out

-- The answers for `k` slots from slot `i` on, each with the value that its command returns.
pub answers : (ℕ → Option Entry) → ℕ → ℕ → Database → List Answer
answers log i zero d = []
answers log i (suc k) d = elim (log i) [
  | none ↦ answers log (suc i) k d
  | some e ↦
      let (d', value) = Db.execute d e.command in
      let rest = answers log (suc i) k d' in
      elim e.request [ none ↦ rest | some q ↦ (q, (e.command, value)) ∷ rest ]
]

abbrev reply_of : Answer → Output
reply_of (q, (c, v)) = reply q (record { command = c; value = v; properties = []; timestamp = 0 })

replies-answers :
    (log : ℕ → Option Entry) (i k : ℕ) (d : Database)
    → paxos_answers_of (replies log i k d) ≡ answers log i k d
unfolding replies answers exec_reply
replies-answers log i zero d = refl
replies-answers log i (suc k) d = elim (Option-cases (log i)) [
  | inl missing ↦ rw (replies, answers, missing) (replies-answers log (suc i) k d)
  | inr (e, there) ↦
      let rest = replies-answers log (suc i) k (Db.execute d e.command).0 in
      elim (Option-cases e.request) [
        | inl nobody ↦ rw (replies, answers, there, nobody) rest
        | inr (q, asked) ↦
            rw (replies, answers, there, asked)
              (ap (λ l. (q, (e.command, (Db.execute d e.command).1)) ∷ l) rest)
      ]
]

-- The loop sends nothing but answers.
exec_loop_replies :
    (fuel : ℕ) (p : Paxos) → (exec_loop fuel p).1 ≡ map reply_of (answers_of (exec_loop fuel p).1)
unfolding exec_loop exec_round
exec_loop_replies zero p = refl
exec_loop_replies (suc fuel) p = elim (Option-cases (ready p)) [
  | inl stop ↦ rw (exec_loop, stop) refl
  | inr (e, go) ↦
      let after = exec_loop_replies fuel (exec_round p e).0 in
      elim (Option-cases e.request) [
        | inl nobody ↦
            let rest = rw (exec_round, nobody) at after in
            rw (exec_loop, go, exec_round, nobody) rest
        | inr (q, asked) ↦
            let rest = rw (exec_round, asked) at after in
            rw (exec_loop, go, exec_round, asked)
              (ap (λ l. reply_of (q, (e.command, (Db.execute p.db e.command).1)) ∷ l) rest)
      ]
]

-- A round leaves what one of paxos/paxos.go leaves, and gives the same answer.
exec_round_lem :
    (p : Paxos) (e : Entry)
    → p.log p.execute ≡ some e
    → ((exec_round p e).0 ≡ exec_step p e)
      × ((out : List Output) (out' : List Paxos.Output)
          → answers_of out ≡ paxos_answers_of out'
          → answers_of ((exec_round p e).1 ++ out)
            ≡ paxos_answers_of (exec_reply p.execute e (Db.execute p.db e.command).1 ++ out'))
unfolding exec_round exec_step exec_reply
exec_round_lem p e at_execute = elim (Option-cases e.request) [
  | inl no_request ↦
      let same : ◌≡◌ {A = Entry} e (record e { request = none }) =
        ap (λ o. record e { request = o }) no_request in
      let log : put p.log p.execute (some (record e { request = none })) ≡ p.log =
        put_same p.log p.execute (some (record e { request = none }))
          (at_execute ∙ ap (λ x. some x) same) in
      (
        rw (exec_round, no_request, log) refl,
        λ out out' h. rw (exec_round, exec_reply, no_request) h,
      )
  | inr (q, has) ↦ (
    rw (exec_round, has) refl,
    λ out out' h.
        rw (exec_round, exec_reply, has)
          (ap (λ l. (q, (e.command, (Db.execute p.db e.command).1)) ∷ l) h),
  )
]

exec_loop-eq :
    (fuel : ℕ) (p : Paxos)
    → ((exec_loop fuel p).0 ≡ (Paxos.Exec.exec_loop fuel p).0)
      × (answers_of (exec_loop fuel p).1 ≡ paxos_answers_of (Paxos.Exec.exec_loop fuel p).1)
unfolding exec_loop Paxos.Exec.exec_loop
exec_loop-eq zero p = (refl, refl)
exec_loop-eq (suc fuel) p = elim (Option-cases (ready p)) [
  | inl stop ↦ rw (exec_loop, Paxos.Exec.exec_loop, stop) (refl, refl)
  | inr (e, go) ↦
      let goes : Paxos.Exec.ready p ≡ some e = unfold ready Paxos.Exec.ready in go in
      let (state, answer) = exec_round_lem p e (ready-some p e goes).0 in
      let (rest, out) = exec_loop-eq fuel (exec_step p e) in
      rw (exec_loop, Paxos.Exec.exec_loop, go, state) (rest, answer _ _ out)
]

-- exec leaves the state that the one of paxos/paxos.go leaves, and answers the same requests with the
-- same commands and values in the same order.
exec-eq-exec :
    (p : Paxos)
    → ((exec p).0 ≡ (Paxos.Exec.exec p).0)
      × (answers_of (exec p).1 ≡ paxos_answers_of (Paxos.Exec.exec p).1)
unfolding exec Paxos.Exec.exec
exec-eq-exec p = exec_loop-eq (suc p.slots - p.execute) p

-- `p'` and `out` are what running the committed slots of `p` up to the first other one gives.
pub record Executes (p p' : Paxos) (out : List Output) : Type 0 where
  pub advanced : p.execute ≤ p'.execute
  pub committed : (s : ℕ) → p.execute ≤ s → s < p'.execute → IsCommitted (p.log s)
  pub stopped : ready p' ≡ none
  pub executed : p'.db ≡ execute_all p.db (commands p.log p.execute (p'.execute - p.execute))
  pub answered : out ≡ map reply_of (answers p.log p.execute (p'.execute - p.execute) p.db)
  pub same_log : (s : ℕ) → body (p'.log s) ≡ body (p.log s)
  pub same_above : (s : ℕ) → p'.execute ≤ s → p'.log s ≡ p.log s
  pub same_ballot : p'.ballot ≡ p.ballot
  pub same_active : p'.active ≡ p.active
  pub same_slots : p'.slots ≡ p.slots
  pub same_quorum : p'.quorum ≡ p.quorum
  pub same_requests : p'.requests ≡ p.requests

-- In an instance whose entries stand below the next slot, exec runs exactly the committed slots from `execute` up to the
-- first slot that is not committed: the store afterwards is that of executing their commands in slot order, each held request
-- is answered once, in slot order, with its command and the value that the command returned, nothing else is sent, and besides
-- `execute`, the store and the answered requests nothing changes. It leaves the state that exec of paxos/paxos.go leaves.
pub exec_lem :
    (p : Paxos)
    → Bounded p
    → Executes p (exec p).0 (exec p).1 × ((exec p).0 ≡ (Paxos.Exec.exec p).0)
unfolding exec
exec_lem p bounded =
    let (state, answer) = exec-eq-exec p in
    let (runs, stops) = exec-Runs p bounded in
    let q = (Paxos.Exec.exec p).0 in
    let out_eq =
      ap (λ l. map reply_of l)
        (answer
          ∙ (ap paxos_answers_of runs.replied
              ∙ replies-answers p.log p.execute (q.execute - p.execute) p.db)) in
    let there : Executes p q (exec p).1 = record {
      advanced = runs.advanced;
      committed = runs.committed;
      stopped = unfold ready Paxos.Exec.ready in stops;
      executed = runs.executed;
      answered = exec_loop_replies _ p ∙ out_eq;
      same_log = runs.same_log;
      same_above = runs.same_above;
      same_ballot = runs.same_ballot;
      same_active = runs.same_active;
      same_slots = runs.same_slots;
      same_quorum = runs.same_quorum;
      same_requests = runs.same_requests;
    } in
    (subst (λ r. Executes p r (exec p).1) (sym state) there, state)
