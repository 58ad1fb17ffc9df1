-- ===== src/Tests/WpaxosTests.antt =====
-- A WPaxos replica that knows a decision for key 1 and is sent another write for its slot.
use paxi.Common.{◌≡◌, refl, arith, Option, none, some, List, []}
use paxi.Paxos
use paxi.Paxos.{accept}
use paxi.Policy.{Policy}
use paxi.Kpaxos.Keys.{key_decision}
use paxi.Wpaxos.Replica.{Output, keyed, Replica, init, run_instance, handle_leader_change, deliver}
use paxi.Wpaxos.Keys.{as_kpaxos, deliver_keeps_decision}
use paxi.Tests.PaxosTests.Cluster.{id_a, setup, put_x, put_y, ballot_c}
use paxi.Tests.KpaxosTests.{kpaxos_run, knows, knows-AllBounded}

unfoldable wpaxos_run : Unit {0}
unfolding kpaxos_run init run_instance handle_leader_change deliver
wpaxos_run = tt

abbrev stays : Policy
stays = record { State = Unit {0}; fresh = tt; hit = λ s id. (s, []) }

abbrev knowing : Replica stays
knowing = record { instances = knows.0.instances; policies = λ k. none; db = knows.0.db }

abbrev other_write : Paxos.Message
other_write = accept (record { ballot = ballot_c; slot = 0; command = put_y })

abbrev result_of : Option (Replica stays × List Output) → Replica stays × List Output
result_of none = (knowing, [])
result_of (some t) = t

abbrev after : Replica stays × List Output
after = result_of (deliver (setup id_a) knowing (keyed 1 other_write))

deliver_keeps_decision_example : key_decision (as_kpaxos after.0 1) 1 0 ≡ some put_x
unfolding wpaxos_run
deliver_keeps_decision_example =
    deliver_keeps_decision (setup id_a) knowing after.0 (keyed 1 other_write) after.1 1 0 put_x
      knows-AllBounded refl refl (λ a is here. absurd (ground arith))
