-- ===== src/Tests/PaxosTests/Cluster.antt =====
-- Three replicas: 1.1 leads and commits a command, then 1.3 leads.
use paxi.Common.{◌≡◌, refl, false, Option, none, some, List, [], ◌∷◌, bytes_eq, at, bump}
use paxi.Id.{NodeId, new_id, zone, node}
use paxi.Id.Strconv.{contains, split_at, parse_uint, itoa}
use paxi.Ballot.{Ballot, new_ballot, counter, ballot_id, next}
use paxi.Config.{load}
use paxi.Quorum.{ack, reset, majority}
use paxi.Db.{Command, new_database, write, execute, equal}
use paxi.Message.{Request}
use paxi.Paxos.{
  P1b, P2a, P2b, promise, accept, accepted, Output, broadcast, send, Paxos, Setup, default_setup,
  new_paxos,
}
use paxi.Paxos.Exec.{exec, exec_loop, exec_step, exec_reply, ready}
use paxi.Paxos.Exec.Run.{decided}
use paxi.Paxos.Commit.{decision}
use paxi.Paxos.Phase1.{
  forward_requests, uncommitted, update, update_entry, start_phase1, start_phase2, handle_request,
  handle_p1a, repropose, propose, lead, collect_promise, step_down, handle_p1b,
}
use paxi.Paxos.Phase2.{
  give_up, accept_entry, commit_entry, accept_slot, handle_p2a, commit_slot, collect_accepted,
  fall_back, handle_p2b, handle_p3, deliver,
}

-- All that an evaluation of Paxos goes through.
unfoldable pub paxos_run : Unit {0}
unfolding new_id zone node contains split_at parse_uint itoa new_ballot counter ballot_id next
    bytes_eq at bump load ack reset majority new_database write execute equal default_setup
    new_paxos exec exec_loop exec_step exec_reply ready decided forward_requests uncommitted update
    update_entry start_phase1 start_phase2 handle_request handle_p1a repropose propose lead
    collect_promise step_down handle_p1b give_up accept_entry commit_entry accept_slot handle_p2a
    commit_slot collect_accepted fall_back handle_p2b handle_p3 deliver
paxos_run = tt

abbrev pub id_a : NodeId
id_a = b'1' ∷ b'.' ∷ b'1' ∷ []

abbrev pub id_b : NodeId
id_b = b'1' ∷ b'.' ∷ b'2' ∷ []

abbrev pub id_c : NodeId
id_c = b'1' ∷ b'.' ∷ b'3' ∷ []

abbrev pub setup : NodeId → Setup
setup own = default_setup (load (id_a ∷ id_b ∷ id_c ∷ [])) own false

abbrev pub put_x : Command
put_x = record { key = 1; value = some (b'x' ∷ []); client_id = []; command_id = 1 }

abbrev pub put_y : Command
put_y = record { key = 1; value = some (b'y' ∷ []); client_id = []; command_id = 2 }

abbrev pub ask : Command → Request
ask c = record { command = c; timestamp = 0; node_id = []; channel = 0 }

abbrev pub fresh : Paxos
fresh = new_paxos (new_database false)

-- The ballots 1.1.1 and 1.1.3.
abbrev pub ballot_a : Ballot
ballot_a = 4295032833

abbrev pub ballot_c : Ballot
ballot_c = 4295032835

abbrev pub after : Option (Paxos × List Output) → Paxos
after none = fresh
after (some (p, out)) = p

abbrev a1 : Paxos
a1 = (handle_request (setup id_a) fresh (ask put_x)).0

ballots_chosen :
    (a1.ballot ≡ ballot_a) × ((handle_request (setup id_c) fresh (ask put_y)).0.ballot ≡ ballot_c)
unfolding paxos_run
ballots_chosen = (refl, refl)

abbrev pub b1 : Paxos
b1 = (handle_p1a (setup id_b) fresh (record { ballot = ballot_a })).0

abbrev pub promise_b : P1b
promise_b = record { ballot = ballot_a; id = id_b; log = [] }

-- 1.1 has the promises of a majority, and proposes `x` in slot 0.
abbrev pub a2 : Paxos
a2 = (handle_p1b (setup id_a) a1 promise_b).0

abbrev pub accept_x : P2a
accept_x = record { ballot = ballot_a; slot = 0; command = put_x }

proposes_x : (handle_p1b (setup id_a) a1 promise_b).1 ≡ broadcast (accept accept_x) ∷ []
unfolding paxos_run
proposes_x = refl

abbrev pub b2 : Paxos
b2 = (handle_p2a (setup id_b) b1 accept_x).0

abbrev pub accepted_b : P2b
accepted_b = record { ballot = ballot_a; id = id_b; slot = 0 }

-- 1.1 commits `x` in slot 0, and 1.2 learns it.
abbrev pub a3 : Paxos
a3 = after (handle_p2b (setup id_a) a2 accepted_b)

abbrev pub b3 : Paxos
b3 = (handle_p3 (setup id_b) b2 (record { ballot = ballot_a; slot = 0; command = put_x })).0

decided_x : (decision a3 0 ≡ some put_x) × (decision b3 0 ≡ some put_x) × (a3.execute ≡ 1)
unfolding paxos_run
decided_x = (refl, refl, refl)

-- 1.3 asks 1.2 for a promise: the committed slot is not in it.
abbrev c1 : Paxos
c1 = (handle_request (setup id_c) fresh (ask put_y)).0

abbrev promise_empty : P1b
promise_empty = record { ballot = ballot_c; id = id_b; log = [] }

promise_leaves_out :
    (handle_p1a (setup id_b) b3 (record { ballot = ballot_c })).1
    ≡ send id_c (promise promise_empty) ∷ []
unfolding paxos_run
promise_leaves_out = refl

abbrev b4 : Paxos
b4 = (handle_p1a (setup id_b) b3 (record { ballot = ballot_c })).0

abbrev c2 : Paxos
c2 = (handle_p1b (setup id_c) c1 promise_empty).0

abbrev accept_y : P2a
accept_y = record { ballot = ballot_c; slot = 0; command = put_y }

-- 1.3 proposes `y` in slot 0, and 1.2 answers that it has accepted it.
proposes_y :
    ((handle_p1b (setup id_c) c1 promise_empty).1 ≡ broadcast (accept accept_y) ∷ [])
    × ((handle_p2a (setup id_b) b4 accept_y).1
        ≡ send id_c (accepted (record { ballot = ballot_c; id = id_b; slot = 0 })) ∷ [])
unfolding paxos_run
proposes_y = (refl, refl)

abbrev c3 : Paxos
c3 = after (handle_p2b (setup id_c) c2 (record { ballot = ballot_c; id = id_b; slot = 0 }))

-- So 1.1 and 1.2 have committed `x` in slot 0 and 1.3 has committed `y` there.
disagreement : (decision a3 0 ≡ some put_x) × (decision c3 0 ≡ some put_y)
unfolding paxos_run
disagreement = (refl, refl)
