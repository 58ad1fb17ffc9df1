-- ===== src/Tests/WankeeperTests.antt =====
-- The leader 1.1 of zone 1 and the master 2.1 of WanKeeper, with key 1 of which each gets a request.
use paxi.Common.{
  ℕ, ◌≡◌, ◌≤◌, ◌+◌, ◌==◌, refl, arith, false, Option, none, some, List, [], ◌∷◌, bytes_eq,
  if◌then◌else◌,
}
use paxi.Id.{NodeId, node, new_id}
use paxi.Id.Strconv.{itoa}
use paxi.Ballot.{Ballot, counter, next, new_ballot, ballot_id}
use paxi.Config.{Config, load}
use paxi.Db.{new_database, write, execute, equal}
use paxi.Message.{Request}
use paxi.Policy.{Policy}
use paxi.Wankeeper.{
  Output, Entry, Replica, voted, acked, committed, token, revoke, contains, get, set, new_tokens,
  new_replica, entry_at, master_of,
}
use paxi.Wankeeper.Leader.{
  init, ready, exec_step, exec_loop, exec, await_token, relay, clear_pending, propose, lead_one,
  lead, handle_vote, grant, master_commit, commit_slot, handle_ack, handle_revoke, lead_pending,
  handle_token, leader_commit,
}
use paxi.Wankeeper.Handlers.{
  lowest, max, become_leader, start, learn, handle_request, handle_commit, deliver,
}
use paxi.Wankeeper.Balance.{holds, sent}
use paxi.Wankeeper.Ends.{InSlots, exec-ready}
use paxi.Wankeeper.Run.{Event, asked, arrived, received, step, run, run-tokens}
use paxi.Tests.Nodes.{n11, n12, n21, n22, nodes, quorums_run}

-- To unfold this is to unfold all that an evaluation goes through.
unfoldable wankeeper_run : Unit {0}
unfolding quorums_run ballot_id new_id itoa new_ballot node counter next new_database write execute
    equal contains get set new_tokens new_replica entry_at master_of init ready exec_step exec_loop
    exec await_token relay clear_pending propose lead_one lead handle_vote grant master_commit
    commit_slot handle_ack handle_revoke lead_pending handle_token leader_commit lowest max
    become_leader start learn handle_request handle_commit deliver step run
wankeeper_run = tt

-- The policy gives a key to the last client.
abbrev last_client : Policy
last_client = record { State = Unit {0}; fresh = tt; hit = λ s id. (s, id) }

abbrev system : Config
system = load nodes

abbrev at_node : NodeId → Replica last_client
at_node own = (start system own n21 (new_replica last_client own (new_database false)) nodes).0

abbrev write_by : NodeId → ℕ → Request
write_by client n = record {
  command = record { key = 1; value = some (b'x' ∷ []); client_id = client; command_id = n };
  timestamp = 0;
  node_id = client;
  channel = 0;
}

abbrev ballot_one : Ballot
ballot_one = new_ballot 1 n11

abbrev ballot_two : Ballot
ballot_two = new_ballot 1 n21

abbrev one_events : List Event
one_events =
    arrived (voted (record { ballot = ballot_one; id = n12 }))
    ∷ arrived
        (committed (record { ballot = ballot_two; slot = 1; command = (write_by n11 1).command }))
    ∷ arrived (token 1)
    ∷ asked (write_by n11 2)
    ∷ arrived (revoke 1)
    ∷ []

abbrev two_events : List Event
two_events =
    arrived (voted (record { ballot = ballot_two; id = n22 }))
    ∷ asked (write_by n11 1)
    ∷ arrived (acked (record { ballot = ballot_two; id = n22; slot = 1; key = 1 }))
    ∷ asked (write_by n12 3)
    ∷ arrived (token 1)
    ∷ []

abbrev ended : NodeId → List Event → Replica last_client × List Output
ended own es = elim (run system own n21 (at_node own) es) [ none ↦ (at_node own, []) | some s ↦ s ]

one_went :
    run system n11 n21 (at_node n11) one_events
    ≡ some ((ended n11 one_events).0, (ended n11 one_events).1)
unfolding wankeeper_run
one_went = refl

run-tokens_example :
    holds (ended n11 one_events).0.tokens 1 + sent 1 (ended n11 one_events).1
    ≤ received 1 one_events + (if bytes_eq n21 n11 then 1 else 0)
unfolding bytes_eq
run-tokens_example =
    run-tokens last_client system n11 n21 1 (new_database false) nodes one_events
      (ended n11 one_events).0 (ended n11 one_events).1 refl (tt, (tt, (tt, (tt, (refl, tt)))))
      one_went

-- The leader of zone 1 gives the token back before its write in slot 2 is committed, and the master
-- puts another write there.
abbrev number_at : Option Entry → ℕ
number_at none = 0
number_at (some e) = e.cmd.command_id

two_in_slot :
    (number_at (entry_at (ended n11 one_events).0 1 2) ≡ 2)
    × (number_at (entry_at (ended n21 two_events).0 1 2) ≡ 3)
    × (sent 1 (ended n11 one_events).1 ≡ 1)
unfolding wankeeper_run
two_in_slot = (refl, refl, refl)

-- A follower that has learned of a commit in slot 1 executes it.
abbrev learned : Replica last_client
learned =
    learn (new_replica last_client n12 (new_database false))
      (record { ballot = ballot_two; slot = 1; command = (write_by n11 1).command })

learned-InSlots : InSlots learned 1
unfolding wankeeper_run
learned-InSlots s above = let apart : (1 == s) ≡ false = ground (arith, above) in rw apart refl

exec-ready_example : ready (exec learned 1).0 1 ≡ none
exec-ready_example = exec-ready learned 1 learned-InSlots

executes : (exec learned 1).0.executed 1 ≡ 2
unfolding wankeeper_run
executes = refl
