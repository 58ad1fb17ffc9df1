-- ===== src/Wankeeper/Handlers.antt =====
-- wankeeper/replica.go: the handlers of a replica and the start of its node.
use paxi.Common.{
  ℕ, true, false, not, ◌&&◌, Option, none, some, List, [], ◌∷◌, ◌++◌, bytes_eq, ltb, ◌==◌,
  if◌then◌else◌, put,
}
use paxi.Id.{NodeId, zone, node}
use paxi.Ballot.{Ballot, ballot_id, next}
use paxi.Config.{Config}
use paxi.Quorum.{new_quorum, ack}
use paxi.Message.{Request}
use paxi.Policy.{Policy}
use paxi.Wankeeper.{
  Proposal, Commit, Message, Output, ballot_started, voted, new_leader, proposed, acked, committed,
  token, revoke, send, forward, LeaderState, Replica, entry_at, set_entry, set_master,
}
use paxi.Wankeeper.Leader.{
  init, exec, add_leader, lead, handle_vote, handle_ack, handle_revoke, handle_token, leader_commit,
}

-- The identifier of the leader that Run votes for, over the address book in any order.
unfoldable pub lowest : NodeId → List NodeId → NodeId
lowest least [] = least
lowest least (id ∷ ids) =
    lowest (if zone id == zone least && ltb (node id) (node least) then id else least) ids

unfoldable pub max : ℕ → ℕ → ℕ
max a b = if ltb a b then b else a

module _ {policy : Policy} where
  -- What the field `leader` points to.
  abbrev pub current : Replica policy → Option (LeaderState policy)
  current r = if r.leads then r.leader else none

  -- The end of a reign: `r.leader = nil` when the ballot is a newer one.
  abbrev pub follow : Replica policy → Ballot → Replica policy
  follow r b = if ltb r.ballot b then record r { ballot = b; leads = false } else r

  -- handleCommit up to exec.
  unfoldable pub learn : Replica policy → Commit → Replica policy
  unfolding init max
  learn r m =
      let k = m.command.key in
      let r' = init r k in
      let r'' = record r' { slot = put r'.slot k (max (r'.slot k) m.slot) } in
      elim (entry_at r'' k m.slot) [
        | none ↦
            set_entry r'' k m.slot
              (record { cmd = m.command; commit = true; req = none; quorum = none })
        | some e ↦ set_entry r'' k m.slot (record e { commit = true })
      ]

module _ {policy : Policy} (config : Config) (own : NodeId) (mid : NodeId) where
  -- newLeader and newMaster
  unfoldable pub become_leader : Replica policy → Replica policy
  become_leader r =
      let masters = bytes_eq mid own in
      record r {
        leads = true;
        leader = some (record {
          active = false;
          quorum = ack new_quorum own;
          master =
              if masters
              then some (record { leaders = []; pending = λ k. []; policies = λ k. none })
              else none;
        });
        tokens = if masters then record r.tokens { master = true } else r.tokens;
      }

  -- Run, less the loop of the node.
  unfoldable pub start : Replica policy → List NodeId → Replica policy × List Output
  unfolding lowest become_leader
  start r addrs =
      let least = lowest own addrs in
      let r' = record r { ballot = next r.ballot least } in
      if bytes_eq least own
      then (become_leader r', [])
      else (r', send least (voted (record { ballot = r'.ballot; id = own })) ∷ [])

  unfoldable pub handle_new_leader : Replica policy → Ballot → Replica policy × List Output
  unfolding add_leader
  handle_new_leader r b =
      let z = zone (ballot_id b) in
      if not (z == zone own)
      then elim (current r) [
        | none ↦ (r, [])
        | some l ↦ elim l.master [
          | none ↦ (r, [])
          | some ms ↦
              (set_master r (record ms { leaders = add_leader ms.leaders z (ballot_id b) }), [])
        ]
      ]
      else (follow r b, [])

  unfoldable pub handle_new_ballot : Replica policy → Ballot → Replica policy × List Output
  handle_new_ballot r b =
      let r' = follow r b in
      (r', send (ballot_id b) (voted (record { ballot = r'.ballot; id = own })) ∷ [])

  unfoldable pub handle_request : Replica policy → Request → Replica policy × List Output
  unfolding lead
  handle_request r m =
      if r.ballot == 0
      then (record r { requests = r.requests ++ m ∷ [] }, [])
      else elim (current r) [
        | none ↦ (r, forward (ballot_id r.ballot) m ∷ [])
        | some l ↦
            if l.active
            then lead config own mid r (m ∷ [])
            else (record r { requests = r.requests ++ m ∷ [] }, [])
      ]

  unfoldable pub handle_proposal : Replica policy → Proposal → Replica policy × List Output
  unfolding init max
  handle_proposal r m =
      let k = m.command.key in
      if ltb m.ballot r.ballot
      then (r, [])
      else (let r' = init (follow r m.ballot) k in
          (
            set_entry (record r' { slot = put r'.slot k (max (r'.slot k) m.slot) }) k m.slot
                (record { cmd = m.command; commit = false; req = none; quorum = none }),
            send (ballot_id m.ballot)
                  (acked (record { ballot = m.ballot; id = own; slot = m.slot; key = k }))
                ∷ [],
          ))

  unfoldable pub handle_commit : Replica policy → Commit → Replica policy × List Output
  unfolding learn exec leader_commit
  handle_commit r m =
      let (r', out) = exec (learn r m) m.command.key in
      elim (current r') [
        | none ↦ (r', out)
        | some l ↦ let (r'', outs) = leader_commit config own mid r' m in (r'', out ++ outs)
      ]

  -- The handlers that NewReplica and newLeader register; a message of a leader stops a node that
  -- never made one.
  unfoldable pub deliver : Replica policy → Message → Option (Replica policy × List Output)
  unfolding handle_new_leader handle_new_ballot handle_proposal handle_commit handle_vote handle_ack
      handle_revoke handle_token
  deliver r (ballot_started b) = some (handle_new_ballot r b)
  deliver r (new_leader b) = some (handle_new_leader r b)
  deliver r (proposed m) = some (handle_proposal r m)
  deliver r (committed m) = some (handle_commit r m)
  deliver r (voted m) = elim r.leader [
    | none ↦ none
    | some l ↦ some (handle_vote config own mid r l m)
  ]
  deliver r (acked m) = elim r.leader [ none ↦ none | some l ↦ handle_ack config own mid r l m ]
  deliver r (revoke k) = elim r.leader [
    | none ↦ none
    | some l ↦ some (handle_revoke config own mid r k)
  ]
  deliver r (token k) = elim r.leader [
    | none ↦ none
    | some l ↦ some (handle_token config own mid r k)
  ]
