-- ===== src/Tests/ReplicaTests.antt =====
-- A read that takes no slot, at a replica with an entry that is not committed yet.
use paxi.Common.{◌≡◌, ◌⊎◌, ◌+◌, ◌-◌, refl, true, false, none, some, [], ◌∷◌}
use paxi.Db.{Value, get, is_read}
use paxi.Message.{Request}
use paxi.Paxos.{Paxos}
use paxi.Paxos.Phase2.{handle_p2a}
use paxi.Paxos.Replica.{Flags, read_log, read, answer_read, handle_client}
use paxi.Paxos.Replica.Read.{Absent, First, answered_value, read_answer}
use paxi.Tests.PaxosTests.Cluster.{paxos_run, id_b, setup, put_x, fresh, ask, ballot_a}

abbrev flags : Flags
flags = record { ephemeral_leader = false; read_quorum = true; read_leader = false; now = 9 }

abbrev holds_x : Paxos
holds_x =
    (handle_p2a (setup id_b) fresh (record { ballot = ballot_a; slot = 0; command = put_x })).0

abbrev get_one : Request
get_one = ask (record { key = 1; value = none; client_id = []; command_id = 3 })

read_answer_example :
    ((handle_client (setup id_b) flags holds_x get_one).0 ≡ holds_x)
    × ((v : Value) × (answered_value (handle_client (setup id_b) flags holds_x get_one).1 ≡ some v)
        × ((First holds_x.log 1 holds_x.execute
              (holds_x.execute + (holds_x.slots - holds_x.execute))
              v)
            ⊎ ((v ≡ get holds_x.db 1)
                × Absent holds_x.log 1 holds_x.execute
                    (holds_x.execute + (holds_x.slots - holds_x.execute)))))
unfolding is_read
read_answer_example = read_answer (setup id_b) flags holds_x get_one refl refl

reads_x :
    answered_value (handle_client (setup id_b) flags holds_x get_one).1 ≡ some (some (b'x' ∷ []))
unfolding paxos_run is_read read_log read answer_read handle_client
reads_x = refl
