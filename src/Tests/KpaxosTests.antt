-- ===== src/Tests/KpaxosTests.antt =====
-- A KPaxos replica that knows a decision for one key and handles messages for two.
use paxi.Common.{◌≡◌, refl, arith, false, Option, none, some, List, [], ◌∷◌, All}
use paxi.Db.{new_database}
use paxi.Paxos.{P2a, P3, prepare, accept, commit_to}
use paxi.Paxos
use paxi.Kpaxos.{
  Message, keyed, Output, Replica, init, run_instance, deliver, run, wrap, wrap_send, index,
  multicast_quorum,
}
use paxi.Kpaxos.Keys.{AllBounded, Agrees, key_decision, deliver-AllBounded, run-key_decision}
use paxi.Tests.PaxosTests.Cluster.{paxos_run, id_a, setup, put_x, put_y, ballot_a, ballot_c}

unfoldable pub kpaxos_run : Unit {0}
unfolding paxos_run init run_instance deliver run wrap wrap_send index key_decision
kpaxos_run = tt

abbrev nothing : Replica
nothing = record { instances = λ k. none; db = new_database false; key = 0 }

nothing-AllBounded : AllBounded nothing
nothing-AllBounded k p h = absurd (ground arith)

abbrev result_of : Option (Replica × List Output) → Replica × List Output
result_of none = (nothing, [])
result_of (some t) = t

abbrev pub commit_x : Paxos.Message
commit_x = commit_to (record { ballot = ballot_a; slot = 0; command = put_x })

abbrev pub knows : Replica × List Output
knows = result_of (deliver (setup id_a) nothing (keyed 1 commit_x))

pub knows-AllBounded : AllBounded knows.0
unfolding kpaxos_run
knows-AllBounded =
    deliver-AllBounded (setup id_a) nothing knows.0 1 commit_x knows.1 nothing-AllBounded refl

-- A commit message for another key, and an accept message for the decided slot.
abbrev later : List Message
later =
    keyed 2 (commit_to (record { ballot = ballot_a; slot = 0; command = put_y }))
    ∷ keyed 1 (accept (record { ballot = ballot_c; slot = 0; command = put_y }))
    ∷ []

abbrev state_of : Option Replica → Replica
state_of none = nothing
state_of (some r) = r

abbrev last : Replica
last = state_of (run (setup id_a) knows.0 later)

agrees : All (Agrees 1 0 put_x) later
agrees =
    ((λ a is at_key. absurd (omega (arith, at_key))), ((λ a is at_key. absurd (ground arith)), tt))

run-key_decision_example : key_decision last 1 0 ≡ some put_x
unfolding kpaxos_run
run-key_decision_example =
    run-key_decision (setup id_a) knows.0 last 1 0 put_x later knows-AllBounded refl refl agrees

other_key : key_decision last 2 0 ≡ some put_y
unfolding kpaxos_run
other_key = refl

-- An accept message to a random quorum goes out without its key.
thrifty_loses_key :
    (m : P2a) → wrap 7 (Paxos.multicast_quorum 2 (accept m)) ≡ multicast_quorum 2 (accept m)
unfolding wrap
thrifty_loses_key m = refl
