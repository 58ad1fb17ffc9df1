-- ===== src/Tests/VpaxosTests.antt =====
-- A key moves to zone 2, and another node of zone 1 asks for it and for a new key.
use paxi.Common.{◌≡◌, ◌⊎◌, inl, refl, arith, true, false, none, some, List, [], ◌∷◌, In, put}
use paxi.Id.{zone, node, new_id}
use paxi.Id.Strconv.{itoa}
use paxi.Ballot.{Ballot, counter, next, new_ballot, ballot_id}
use paxi.Config.{Config, load}
use paxi.Quorum.{new_quorum, ack, reset}
use paxi.Db.{Command, new_database, execute, write}
use paxi.Message.{Request}
use paxi.Policy.{Policy}
use paxi.Paxos
use paxi.Paxos.{Entry, Paxos, new_paxos}
use paxi.Vpaxos.Instance
use paxi.Vpaxos.Instance.Activate.{Proposes, handle_p1b-Proposes}
use paxi.Paxos.Exec.Run.{Bounded}
use paxi.Vpaxos.Instance.Exec.{Executes, exec_lem}
use paxi.Vpaxos.Replica.{Replica, new_replica, or_empty, handle_request, handle_info}
use paxi.Vpaxos.Replica.Keyed.{Reachable, start, ask}
use paxi.Vpaxos.Replica.Pending.{Holds, Forwarded, handle_info-Holds}
use paxi.Vpaxos.{
  Query, Info, forward, reply, Move, new_master, or_zero, handle_move, query, queries,
}
use paxi.Vpaxos.Master.{move_holds}
use paxi.Tests.Nodes.{n11, n12, n21, n22, nodes, quorums_run}

abbrev move_to_two : Move
move_to_two = record { key = 1; from = n11; to = n22 }

abbrev asked : List Query
asked = record { key = 1; id = n12 } ∷ record { key = 5; id = n12 } ∷ []

move_holds_example :
    (query (queries (handle_move new_master move_to_two).0 asked) 1 n11).1
    ≡ next (or_zero (new_master.ballots (zone n22))) n22
move_holds_example = move_holds new_master move_to_two asked n11

-- Node 1.2 leads zone 1, and a request for key 1 came before the second promise.
abbrev led : Ballot
led = new_ballot 1 n12

abbrev write_one : Command
write_one = record { key = 1; value = some (b'x' ∷ []); client_id = n11; command_id = 1 }

-- To unfold this is to unfold all that an evaluation goes through.
unfoldable vpaxos_run : Unit {0}
unfolding quorums_run new_paxos ballot_id new_id itoa new_ballot node
vpaxos_run = tt

abbrev asked_write : Request
asked_write = record { command = write_one; timestamp = 0; node_id = n12; channel = 0 }

abbrev waiting : Paxos
waiting = record (new_paxos (new_database false)) {
  ballot = led;
  quorum = ack new_quorum n12;
  requests = asked_write ∷ [];
}

abbrev system : Config
system = load nodes

handle_p1b-Proposes_example :
    Proposes n12
      (record waiting { quorum = reset (ack waiting.quorum n11); active = true })
      (asked_write ∷ [])
      (record (Instance.handle_p1b system n12 waiting
        (record { key = 1; ballot = led; id = n11; log = [] })).0 { requests = [] })
      (Instance.handle_p1b system n12 waiting
        (record { key = 1; ballot = led; id = n11; log = [] })).1
    × ((Instance.handle_p1b system n12 waiting
          (record { key = 1; ballot = led; id = n11; log = [] })).0.requests
        ≡ [])
unfolding vpaxos_run
handle_p1b-Proposes_example =
    handle_p1b-Proposes system n12 waiting (record { key = 1; ballot = led; id = n11; log = [] })
      refl (omega arith) refl refl

-- Node 1.1 has committed the write in slot 0.
abbrev committed : Paxos
committed = record (new_paxos (new_database false)) {
  slots = 1;
  log =
      put (λ s. none) 0
        (some (record {
          ballot = led;
          command = write_one;
          commit = true;
          request = some asked_write;
          quorum = none;
        }));
}

committed-Bounded : Bounded committed
unfolding vpaxos_run
committed-Bounded s h = ground arith

exec_lem_example :
    Executes committed (Instance.exec committed).0 (Instance.exec committed).1
    × ((Instance.exec committed).0 ≡ (Paxos.Exec.exec committed).0)
exec_lem_example = exec_lem committed committed-Bounded

-- The write is executed and answered.
executes_and_replies :
    ((Instance.exec committed).0.execute ≡ 1)
    × ((Instance.exec committed).1
        ≡ reply asked_write
            (record { command = write_one; value = none; properties = []; timestamp = 0 })
          ∷ [])
unfolding vpaxos_run Instance.exec Instance.exec_loop Instance.exec_round Instance.ready execute
    write new_database
executes_and_replies = (refl, refl)

-- A policy that never moves a key.
abbrev null_policy : Policy
null_policy = record { State = Unit {0}; fresh = tt; hit = λ s id. (s, []) }

-- Node 1.1 asked the master at 2.1 for key 1, and the answer names node 1.2.
abbrev asking : Replica null_policy
asking =
    (handle_request null_policy system n11 n21
      (new_replica null_policy n11 n21 (new_paxos (new_database false))) asked_write).0

asking-Reachable : Reachable null_policy system n11 n21 asking
asking-Reachable = ask (start (new_paxos (new_database false))) asked_write

abbrev answered : Info
answered = record { key = 1; ballot = led; old_ballot = 0 }

handle_info-Holds_example :
    ((q : Request)
      → In q (or_empty (asking.pending 1))
      → Forwarded q (handle_info null_policy system n11 n21 asking answered).1
        ⊎ Holds q (handle_info null_policy system n11 n21 asking answered).0.paxos)
    × ((q : Request)
        → Holds q asking.paxos
        → Holds q (handle_info null_policy system n11 n21 asking answered).0.paxos)
    × (or_empty ((handle_info null_policy system n11 n21 asking answered).0.pending 1) ≡ [])
handle_info-Holds_example = handle_info-Holds null_policy system n11 n21 answered asking-Reachable

waits : asking.pending 1 ≡ some (asked_write ∷ [])
unfolding vpaxos_run handle_request new_replica
waits = refl

-- Active at 1.1 while the ballot is of 1.2, a request is forwarded and proposed.
forwards_and_proposes :
    let p = record committed { active = true; ballot = led } in
    ((Instance.handle_request system n11 p asked_write).0.slots ≡ 2)
    × In (forward n12 asked_write) (Instance.handle_request system n11 p asked_write).1
unfolding vpaxos_run Instance.handle_request
forwards_and_proposes = (refl, inl refl)

-- A later accept message takes the committed write out of its slot.
commit_lost :
    (Instance.handle_p2a system n12 committed (record {
      ballot = next led n11;
      slot = 0;
      command = record write_one { value = none };
    })).0.log
      0
    ≡ some (record {
      ballot = next led n11;
      command = record write_one { value = none };
      commit = false;
      request = none;
      quorum = none;
    })
unfolding vpaxos_run Instance.handle_p2a next counter
commit_lost = refl
