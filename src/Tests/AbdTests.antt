-- ===== src/Tests/AbdTests.antt =====
-- A replica of the ABD register at work, in a system of four nodes.
use paxi.Common.{false, ℕ, ◌≡◌, ◌≤◌, refl, arith, Option, none, some, List, [], ◌∷◌, All}
use paxi.Id.{NodeId}
use paxi.Config.{Config, load}
use paxi.Quorum.{new_quorum}
use paxi.Db.{Value, new_database, is_read, get, put_value, write}
use paxi.Message.{Request}
use paxi.Abd.{
  done, Entry, Replica, GetReply, Message, on_get_reply, on_set, on_set_reply, Output,
  broadcast_set, new_replica, store, take_newer, handle_request, handle_set, begin_set, collect_get,
  handle_get_reply, collect_set, handle_set_reply, deliver, run,
}
use paxi.Abd.GetPhase.{Covers}
use paxi.Abd.SetVersion.{newest_set}
use paxi.Abd.Answers.{answers, answers_once}
use paxi.Tests.Nodes.{nodes, n11, n12, n21, n22, quorums_run}

unfoldable abd_run : Unit {0}
unfolding quorums_run new_database is_read get put_value write new_replica store take_newer
    handle_request handle_set begin_set collect_get handle_get_reply collect_set handle_set_reply
    deliver run answers
abd_run = tt

abbrev config : Config
config = load nodes

abbrev request : Request
request = record {
  command = record { key = 1; value = some (b'x' ∷ []); client_id = []; command_id = 1 };
  timestamp = 0;
  node_id = [];
  channel = 0;
}

abbrev asked : Replica
asked = (handle_request config n11 (new_replica (new_database false)) request).0

abbrev reply : NodeId → ℕ → GetReply
reply id version = record { id = id; cid = 1; key = 1; value = some (b'y' ∷ []); version = version }

abbrev state_of : Option Replica → Replica
state_of none = asked
state_of (some r) = r

abbrev one_reply : Replica
one_reply = state_of (run config n11 asked (on_get_reply (reply n12 2) ∷ []))

abbrev entry_of : Option Entry → Entry
entry_of none = record {
  request = request;
  state = done;
  get_quorum = new_quorum;
  set_quorum = new_quorum;
  value = none;
  version = 0;
}
entry_of (some e) = e

abbrev result_of : Option (Replica × List Output) → Replica × List Output
result_of none = (asked, [])
result_of (some t) = t

abbrev two_replies : Replica × List Output
two_replies = result_of (handle_get_reply config n11 one_reply (reply n21 1))

-- The write sets version 3 once versions 2 and 1 have come.
write_sets :
    two_replies.1
    ≡ broadcast_set (record { id = n11; cid = 1; key = 1; value = some (b'x' ∷ []); version = 3 })
      ∷ []
unfolding abd_run
write_sets = refl

newest_set_example :
    All (λ g. All (Covers request.command g.version) two_replies.1) (reply n12 2 ∷ reply n21 1 ∷ [])
unfolding abd_run
newest_set_example =
    newest_set config n11 1 request (entry_of (asked.log 1)) asked one_reply two_replies.0
      (on_get_reply (reply n12 2) ∷ []) (reply n21 1) two_replies.1 (omega arith) refl refl refl
      refl refl

abbrev set_reply : NodeId → Message
set_reply id = on_set_reply (record { id = id; cid = 1; key = 1 })

abbrev set_replies : List Message
set_replies =
    on_get_reply (reply n12 2)
    ∷ on_get_reply (reply n21 1)
    ∷ set_reply n12
    ∷ set_reply n21
    ∷ set_reply n22
    ∷ []

answers_once_example :
    (answers config n11 1 asked set_replies ≤ 1)
    × ((e : Entry)
        → asked.log 1 ≡ some e
        → e.state ≡ done
        → answers config n11 1 asked set_replies ≡ 0)
answers_once_example = answers_once config n11 1 asked set_replies (unfold abd_run in omega arith)

one_answer : answers config n11 1 asked set_replies ≡ 1
unfolding abd_run
one_answer = refl

-- A Set of version 5 arrives between the request and a get reply of version 3: the reply, newer than
-- the entry, takes the version of the key back to 3.
abbrev version_five : Message
version_five = on_set (record { id = n22; cid = 9; key = 1; value = some (b'z' ∷ []); version = 5 })

abbrev stored : List Message → ℕ × Value
stored xs = (let r = state_of (run config n11 asked xs) in (r.version 1, get r.db 1))

version_goes_back :
    (stored (version_five ∷ []) ≡ (5, some (b'z' ∷ [])))
    × (stored (version_five ∷ on_get_reply (reply n12 3) ∷ []) ≡ (3, some (b'y' ∷ [])))
unfolding abd_run
version_goes_back = (refl, refl)
