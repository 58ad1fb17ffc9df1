-- ===== src/Wankeeper/Run.antt =====
-- Runs of a node of WanKeeper, and the tokens that it gets and gives.
use paxi.Common.{
  ℕ, ◌+◌, ◌≤◌, ◌≡◌, inl, inr, refl, ap, subst, ◌∙◌, false, not, Option, none, some, List, [], ◌∷◌,
  ◌++◌, bytes_eq, ltb, ◌==◌, if◌then◌else◌, put, All, arith, Bool-cases, Option-cases,
}
use paxi.Id.{NodeId, zone}
use paxi.Ballot.{Ballot, ballot_id}
use paxi.Config.{Config}
use paxi.Db.{Key, Database}
use paxi.Message.{Request}
use paxi.Policy.{Policy}
use paxi.Wankeeper.{
  Proposal, Commit, Message, Output, ballot_started, voted, new_leader, proposed, acked, committed,
  token, revoke, new_tokens, Replica, new_replica, entry_at,
}
use paxi.Wankeeper.Leader.{exec, init}
use paxi.Wankeeper.Handlers.{
  lowest, max, start, become_leader, current, follow, learn, handle_new_leader, handle_request,
  handle_proposal, handle_commit, deliver,
}
use paxi.Wankeeper.Balance.{
  holds, made_le, carried, sent, Balance, Balance-refl, Balance-trans, Balance-same,
}
use paxi.Wankeeper.Steps.{
  Outcome, init_tokens, set_master_tokens, exec-Balance, lead-Balance, handle_vote-Balance,
}
use paxi.Wankeeper.Commits.{
  handle_ack-Balance, handle_revoke-Balance, handle_token-Balance, leader_commit-Balance,
}

-- What comes to a node.
pub data Event : Type 0 where
  asked : Request → Event
  arrived : Message → Event

abbrev pub brought : Key → Event → ℕ
brought k (asked m) = 0
brought k (arrived m) = carried k m

-- The tokens of the key that come in.
abbrev pub received : Key → List Event → ℕ
received k [] = 0
received k (e ∷ es) = brought k e + received k es

-- Nobody asks the master to give a token back.
abbrev pub Allowed : NodeId → NodeId → Event → Type 0
Allowed own mid (asked m) = Unit
Allowed own mid (arrived (revoke k)) = bytes_eq mid own ≡ false
Allowed own mid (arrived m) = Unit

module _ {policy : Policy} (config : Config) (own : NodeId) (mid : NodeId) where
  unfoldable pub step : Replica policy → Event → Option (Replica policy × List Output)
  unfolding handle_request deliver
  step r (asked m) = some (handle_request config own mid r m)
  step r (arrived m) = deliver config own mid r m

  -- The state after events in their order and what was sent, none on a panic.
  unfoldable pub run : Replica policy → List Event → Option (Replica policy × List Output)
  unfolding step
  run r [] = some (r, [])
  run r (e ∷ es) = elim (step r e) [
    | none ↦ none
    | some s ↦ elim (run s.0 es) [ none ↦ none | some t ↦ some (t.0, s.1 ++ t.1) ]
  ]

module _ {policy : Policy} (config : Config) (own : NodeId) (mid : NodeId) (k : Key) where
  follow_tokens : (r : Replica policy) (b : Ballot) → (follow r b).tokens ≡ r.tokens
  follow_tokens r b = elim (Bool-cases (ltb r.ballot b)) [
    | inl newer ↦ rw (follow, newer) refl
    | inr older ↦ rw (follow, older) refl
  ]

  handle_request-Balance :
      (r : Replica policy) (m : Request)
      → Balance k r.tokens
          (handle_request config own mid r m).0.tokens
          0
          (handle_request config own mid r m).1
  unfolding handle_request
  handle_request-Balance r m = elim (Bool-cases (r.ballot == 0)) [
    | inl none_yet ↦ rw none_yet (Balance-refl k r.tokens [] refl)
    | inr elected ↦ elim (Option-cases (current r)) [
      | inl follower ↦ rw (elected, follower) (Balance-refl k r.tokens _ refl)
      | inr (l, leads) ↦ elim (Bool-cases l.active) [
        | inl active ↦ rw (elected, leads, active) (lead-Balance config own mid k r (m ∷ []))
        | inr waits ↦ rw (elected, leads, waits) (Balance-refl k r.tokens [] refl)
      ]
    ]
  ]

  handle_new_leader-Balance :
      (r : Replica policy) (b : Ballot)
      → Balance k r.tokens
          (handle_new_leader config own mid r b).0.tokens
          0
          (handle_new_leader config own mid r b).1
  unfolding handle_new_leader
  handle_new_leader-Balance r b = elim (Bool-cases (not (zone (ballot_id b) == zone own))) [
    | inr here ↦ rw here (Balance-same (follow_tokens r b) refl)
    | inl away ↦ elim (Option-cases (current r)) [
      | inl follower ↦ rw (away, follower) (Balance-refl k r.tokens [] refl)
      | inr (l, leads) ↦ elim (Option-cases l.master) [
        | inl leader ↦ rw (away, leads, leader) (Balance-refl k r.tokens [] refl)
        | inr (ms, master) ↦ rw (away, leads, master) (Balance-same (set_master_tokens k r _) refl)
      ]
    ]
  ]

  handle_proposal-Balance :
      (r : Replica policy) (m : Proposal)
      → Balance k r.tokens
          (handle_proposal config own mid r m).0.tokens
          0
          (handle_proposal config own mid r m).1
  unfolding handle_proposal
  handle_proposal-Balance r m = elim (Bool-cases (ltb m.ballot r.ballot)) [
    | inl stale ↦ rw stale (Balance-refl k r.tokens [] refl)
    | inr now ↦ rw now (
        Balance-same (init_tokens k (follow r m.ballot) m.command.key ∙ follow_tokens r m.ballot)
          refl)
  ]

  learn_tokens : (r : Replica policy) (m : Commit) → (learn r m).tokens ≡ r.tokens
  unfolding learn
  learn_tokens r m =
      let j = m.command.key in
      let r' = init r j in
      let r'' : Replica policy = record r' { slot = put r'.slot j (max (r'.slot j) m.slot) } in
      elim (Option-cases (entry_at r'' j m.slot)) [
        | inl new ↦ rw (learn, new) (init_tokens k r j)
        | inr (e, old) ↦ rw (learn, old) (init_tokens k r j)
      ]

  handle_commit-Balance :
      (r : Replica policy) (m : Commit)
      → r.tokens.id ≡ own
      → bytes_eq [] own ≡ false
      → Balance k r.tokens
          (handle_commit config own mid r m).0.tokens
          0
          (handle_commit config own mid r m).1
  unfolding handle_commit
  handle_commit-Balance r m is_own named =
      let r1 = learn r m in
      let r' = (exec r1 m.command.key).0 in
      let first : Balance k r.tokens r'.tokens 0 (exec r1 m.command.key).1 =
        subst (λ x. Balance k x r'.tokens 0 (exec r1 m.command.key).1) (learn_tokens r m)
          (exec-Balance k r1 m.command.key) in
      elim (Option-cases (current r')) [
        | inl follower ↦ rw (handle_commit, follower) first
        | inr (l, leads) ↦
            rw (handle_commit, leads)
              (Balance-trans first
                (leader_commit-Balance config own mid k r' m (first.same_id ∙ is_own) named))
      ]

  step-Outcome :
      (r : Replica policy) (e : Event)
      → r.tokens.id ≡ own
      → bytes_eq [] own ≡ false
      → Allowed own mid e
      → Outcome config own mid k r (brought k e) (step config own mid r e)
  unfolding step
  step-Outcome r (asked m) is_own named allowed = handle_request-Balance r m
  step-Outcome r (arrived (ballot_started b)) is_own named allowed =
      Balance-same (follow_tokens r b) refl
  step-Outcome r (arrived (new_leader b)) is_own named allowed = handle_new_leader-Balance r b
  step-Outcome r (arrived (proposed m)) is_own named allowed = handle_proposal-Balance r m
  step-Outcome r (arrived (committed m)) is_own named allowed =
      handle_commit-Balance r m is_own named
  step-Outcome r (arrived (voted m)) is_own named allowed = elim (Option-cases r.leader) [
    | inl nobody ↦ rw (Outcome, nobody) tt
    | inr (l, leads) ↦ rw (Outcome, leads) (handle_vote-Balance config own mid k r l m)
  ]
  step-Outcome r (arrived (acked m)) is_own named allowed = elim (Option-cases r.leader) [
    | inl nobody ↦ rw (Outcome, nobody) tt
    | inr (l, leads) ↦ rw (deliver, leads) (handle_ack-Balance config own mid k r l m is_own named)
  ]
  step-Outcome r (arrived (revoke j)) is_own named allowed = elim (Option-cases r.leader) [
    | inl nobody ↦ rw (Outcome, nobody) tt
    | inr (l, leads) ↦
        rw (Outcome, leads) (handle_revoke-Balance config own mid k r j is_own named allowed)
  ]
  step-Outcome r (arrived (token j)) is_own named allowed = elim (Option-cases r.leader) [
    | inl nobody ↦ rw (Outcome, nobody) tt
    | inr (l, leads) ↦ rw (Outcome, leads) (handle_token-Balance config own mid k r j)
  ]

  run-Outcome :
      (r : Replica policy) (es : List Event)
      → r.tokens.id ≡ own
      → bytes_eq [] own ≡ false
      → All (Allowed own mid) es
      → Outcome config own mid k r (received k es) (run config own mid r es)
  unfolding run
  run-Outcome r [] is_own named allowed = Balance-refl k r.tokens [] refl
  run-Outcome r (e ∷ es) is_own named allowed = elim (Option-cases (step config own mid r e)) [
    | inl panic ↦ rw (Outcome, run, panic) tt
    | inr (s, went) ↦
        let first : Balance k r.tokens s.0.tokens (brought k e) s.1 =
          rw went at (step-Outcome r e is_own named allowed.0) in
        elim (Option-cases (run config own mid s.0 es)) [
          | inl panic ↦ rw (Outcome, run, went, panic) tt
          | inr (t, rest) ↦
              rw (Outcome, run, went, rest)
                (Balance-trans first
                  (rw rest at (run-Outcome s.0 es (first.same_id ∙ is_own) named allowed.1)))
        ]
  ]

module _ (policy : Policy) (config : Config) (own : NodeId) (mid : NodeId) (k : Key) where
  start_lem :
      (db : Database) (addrs : List NodeId)
      → let t = (start config own mid (new_replica policy own db) addrs).0.tokens in
        (t.id ≡ own)
        × (holds t k ≡ 0)
        × ((if t.master then 1 else 0) ≤ (if bytes_eq mid own then 1 else 0))
  unfolding start become_leader new_replica new_tokens
  start_lem db addrs = elim (Bool-cases (bytes_eq (lowest own addrs) own)) [
    | inr follower ↦ rw follower (refl, refl, omega arith)
    | inl leader ↦ elim (Bool-cases (bytes_eq mid own)) [
      | inl master ↦ rw (leader, master) (refl, refl, omega arith)
      | inr zone_leader ↦ rw (leader, zone_leader) (refl, refl, omega arith)
    ]
  ]

  -- In every run of a node with an identifier from its start, in which nobody asks the master to give a
  -- token back and which does not panic, the tokens of a key that the node has at the end and those that
  -- it sent are together no more than the tokens of the key that came to it, and one more if it
  -- is the master.
  pub run-tokens :
      (db : Database) (addrs : List NodeId) (es : List Event) (r : Replica policy)
      (out : List Output)
      → bytes_eq [] own ≡ false
      → All (Allowed own mid) es
      → run config own mid (start config own mid (new_replica policy own db) addrs).0 es
        ≡ some (r, out)
      → holds r.tokens k + sent k out ≤ received k es + (if bytes_eq mid own then 1 else 0)
  run-tokens db addrs es r out named allowed went =
      let s = (start config own mid (new_replica policy own db) addrs).0 in
      let (is_own, none_yet, master) = start_lem db addrs in
      let b : Balance k s.tokens r.tokens (received k es) out =
        rw went at (run-Outcome config own mid k s es is_own named allowed) in
      let most = made_le r.tokens k in
      let same : ◌≡◌ {A = ℕ} (if r.tokens.master then 1 else 0) (if s.tokens.master then 1 else 0) =
        ap (λ x. if x then 1 else 0) b.same_master in
      omega (arith, b.count, none_yet, master, most, same)
