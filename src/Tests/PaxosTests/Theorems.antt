-- ===== src/Tests/PaxosTests/Theorems.antt =====
-- The theorems on Paxos replicas at the states of the cluster.
use mathlib.Core.List.{map}
use paxi.Common.{ℕ, ◌≡◌, ◌⊎◌, refl, ◌-◌, ◌≤◌, true, none, some, List, [], ◌∷◌, ◌++◌, arith}
use paxi.Ballot.{ballot_id}
use paxi.Ballot.Packing.{Fits}
use paxi.Db.{Command}
use paxi.Paxos.{CommandBallot, P1a, P1b, accept, accepted, send, Paxos, default_setup}
use paxi.Paxos.Exec.{exec, ready}
use paxi.Paxos.Exec.Run.{Bounded, Runs, exec-Runs}
use paxi.Paxos.Phase1.{handle_p1a, handle_request, lead, update, uncommitted}
use paxi.Paxos.Phase2.{handle_p2a}
use paxi.Paxos.Update.Iteration.{SameMap, update_iteration}
use paxi.Paxos.Snapshot.{Promises, handle_p1a-Promises}
use paxi.Paxos.Lead.{announce}
use paxi.Paxos.Lead.Propose.{Leads, lead-Leads, accepts_for}
use paxi.Paxos.Ballots.{here, promise_kept, deliver-ballot}
use paxi.Paxos.Slots.{deliver-Bounded}
use paxi.Paxos.Commit.{decision}
use paxi.Paxos.Commit.Decide.{DecidedBy, deliver-decision, decision_stays}
use paxi.Tests.PaxosTests.Cluster.{
  paxos_run, setup, id_a, id_b, put_x, put_y, ask, fresh, ballot_a, ballot_c, a2, a3, b1, b2, b3,
  accept_x, accepted_b,
}

-- A log with one entry in slot 0 is below slot 1.
one_slot : (s : ℕ) → 1 ≤ s → a2.log s ≡ none
unfolding paxos_run
one_slot s h = ground arith

one_slot_b : (s : ℕ) → 1 ≤ s → b2.log s ≡ none
unfolding paxos_run
one_slot_b s h = ground arith

a2-Bounded : Bounded a2
unfolding paxos_run
a2-Bounded s h = one_slot s h

b2-Bounded : Bounded b2
unfolding paxos_run
b2-Bounded s h = one_slot_b s h

deliver-decision_example :
    (decision a3 0 ≡ decision a2 0)
    ⊎ ((c : Command) × (decision a3 0 ≡ some c)
        × DecidedBy (setup id_a) a2 0 c (accepted accepted_b))
unfolding paxos_run
deliver-decision_example =
    deliver-decision (setup id_a) a2 (accepted accepted_b) a3 _ a2-Bounded refl 0

-- 1.2 has committed slot 0 and then accepts for another ballot.
decision_stays_example :
    decision
      (handle_p2a (setup id_b) b3 (record { ballot = ballot_c; slot = 0; command = put_y })).0
      0
    ≡ some put_x
unfolding paxos_run
decision_stays_example =
    decision_stays (setup id_b) b3
      (accept (record { ballot = ballot_c; slot = 0; command = put_y }))
      (handle_p2a (setup id_b) b3 (record { ballot = ballot_c; slot = 0; command = put_y })).0
      (handle_p2a (setup id_b) b3 (record { ballot = ballot_c; slot = 0; command = put_y })).1 0
      put_x (λ s h. ground arith) refl refl (λ k e at_s. cc)

Fits-own : Fits id_b
unfolding paxos_run
Fits-own = record { zone_fits = omega arith; node_fits = omega arith }

promise_kept_example :
    let p = (handle_p1a (setup id_b) fresh (record { ballot = ballot_c })).0 in
    (ballot_c ≤ p.ballot)
    × (handle_p2a (setup id_b) p accept_x ≡ (
      p,
      send (ballot_id ballot_a) (accepted (record { ballot = p.ballot; id = id_b; slot = 0 })) ∷ [],
    ))
unfolding default_setup
promise_kept_example =
    promise_kept (setup id_b) fresh (record { ballot = ballot_c })
      (handle_p1a (setup id_b) fresh (record { ballot = ballot_c })).0 accept_x Fits-own here
      (omega arith)

deliver-ballot_example : b1.ballot ≤ b2.ballot
unfolding paxos_run
deliver-ballot_example = deliver-ballot (setup id_b) b1 (accept accept_x) b2 _ refl

deliver-Bounded_example : Bounded b2
unfolding paxos_run
deliver-Bounded_example = deliver-Bounded (setup id_b) b1 (accept accept_x) b2 _ (λ s h. refl) refl

-- The committed slot of 1.2 is executed.
committed_b : Paxos
committed_b = record b2 {
  log = λ s. elim (b2.log s) [ none ↦ none | some e ↦ some (record e { commit = true }) ];
}

committed_b-Bounded : Bounded committed_b
unfolding paxos_run committed_b
committed_b-Bounded s h = ground arith

exec-Runs_example :
    Runs committed_b (exec committed_b).0 (exec committed_b).1 × (ready (exec committed_b).0 ≡ none)
exec-Runs_example = exec-Runs committed_b committed_b-Bounded

executes : (exec committed_b).0.execute ≡ 1
unfolding paxos_run committed_b
executes = refl

-- 1.1 with the promises of a majority, one request pending.
abbrev waiting : Paxos
waiting = (handle_request (setup id_a) fresh (ask put_x)).0

lead-Leads_example :
    Leads (setup id_a) waiting (lead (setup id_a) waiting).0
    × ((lead (setup id_a) waiting).1
        ≡ map
            (announce (setup id_a) waiting.ballot)
            (uncommitted waiting.log waiting.execute (waiting.slots - waiting.execute))
          ++ accepts_for (setup id_a) waiting.ballot waiting.slots waiting.requests)
lead-Leads_example = lead-Leads (setup id_a) waiting

-- A promised log of two slots, in both orders.
abbrev old_x : CommandBallot
old_x = record { command = put_x; ballot = 5 }

abbrev old_y : CommandBallot
old_y = record { command = put_y; ballot = 6 }

abbrev forwards : List (ℕ × CommandBallot)
forwards = (0, old_x) ∷ (3, old_y) ∷ []

abbrev backwards : List (ℕ × CommandBallot)
backwards = (3, old_y) ∷ (0, old_x) ∷ []

both_orders : SameMap forwards backwards
both_orders = record {
  once_a = ground arith;
  once_b = ground arith;
  a_in_b = λ s cb i. ground arith;
  b_in_a = λ s cb i. ground arith;
}

update_iteration_example : update fresh forwards ≡ update fresh backwards
update_iteration_example = update_iteration fresh forwards backwards both_orders

-- 1.1 has an entry in slot 0 that is not committed when 1.3 asks for a promise.
abbrev prepare_c : P1a
prepare_c = record { ballot = ballot_c }

handle_p1a-Promises_example :
    (b : P1b) × Promises id_a a2 prepare_c
      (handle_p1a (setup id_a) a2 prepare_c).0
      (handle_p1a (setup id_a) a2 prepare_c).1
      b
unfolding default_setup
handle_p1a-Promises_example = handle_p1a-Promises (setup id_a) a2 prepare_c
