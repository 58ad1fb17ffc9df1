-- ===== src/Wankeeper/Commits.antt =====
-- What a commit, a revocation and a token do with the tokens in wankeeper/leader.go and wankeeper/master.go.
use paxi.Common.{
  ℕ, ◌≡◌, inl, inr, refl, sym, ap, subst, ◌∙◌, Bool, true, false, not, ◌&&◌, none, some, List, [],
  ◌∷◌, bytes_eq, ltb, put, arith, Bool-cases, Option-cases,
}
use paxi.Id.{NodeId}
use paxi.Ballot.{ballot_id}
use paxi.Config.{Config}
use paxi.Quorum.{ack, zone_majority}
use paxi.Db.{Key}
use paxi.Message.{Request}
use paxi.Policy.{Policy}
use paxi.Wankeeper.{
  Ack, Commit, token, contains, set, Entry, MasterState, LeaderState, Replica, entry_at, set_entry,
  master_of, set_master,
}
use paxi.Wankeeper.Leader.{
  exec, relay, lead, grant, master_commit, commit_slot, handle_ack, handle_revoke, lead_pending,
  handle_token, leader_commit,
}
use paxi.Wankeeper.Balance.{
  holds, carried, sent, sent-append, Balance, Balance-refl, Balance-trans, Balance-then,
  Balance-resent, contains-Balance, contains-holds, give-Balance, take-Balance,
}
use paxi.Wankeeper.Steps.{
  Outcome, set_master_tokens, clear_pending_tokens, exec-Balance, lead-Balance,
}

neither_right : (a b : Bool) → (not a && not b) ≡ true → b ≡ false
neither_right a false h = refl
neither_right true true h = cc
neither_right false true h = cc

relay_lem : (k : Key) (ls : List (ℕ × NodeId)) (c : Commit) → sent k (relay ls c) ≡ 0
unfolding relay
relay_lem k [] c = refl
relay_lem k ((z, id) ∷ ls) c = elim (Bool-cases (bytes_eq id (ballot_id c.ballot))) [
  | inl same ↦ rw same (relay_lem k ls c)
  | inr other ↦ rw other (omega (arith, relay_lem k ls c))
]

module _ {policy : Policy} (config : Config) (own : NodeId) (mid : NodeId) (k : Key) where
  grant-Balance :
      (r : Replica policy) (ms : MasterState policy) (c : Commit)
      → r.tokens.id ≡ own
      → bytes_eq [] own ≡ false
      → Balance k r.tokens (grant config own mid r ms c).0.tokens 0 (grant config own mid r ms c).1
  unfolding grant
  grant-Balance r ms c is_own named =
      let j = c.command.key in
      let t = contains r.tokens j in
      let first = contains-Balance k r.tokens j in
      let hit =
        policy.hit (elim (ms.policies j) [ none ↦ policy.fresh | some s ↦ s ])
          c.command.client_id in
      let r' : Replica policy = record r { tokens = t.0 } in
      let ms' : MasterState policy = record ms { policies = put ms.policies j (some hit.0) } in
      let t' = (set_master r' ms').tokens in
      let kept : t' ≡ t.0 = set_master_tokens k r' ms' in
      let moved : Balance k r.tokens t' 0 [] =
        subst (λ x. Balance k r.tokens x 0 []) (sym kept) first in
      elim (Bool-cases (bytes_eq (ballot_id c.ballot) own)) [
        | inr other ↦ rw other (Balance-refl k r.tokens [] refl)
        | inl mine ↦ elim (Bool-cases t.1) [
          | inr away ↦ rw (mine, away) first
          | inl has ↦ elim (Bool-cases (not (bytes_eq hit.1 []) && not (bytes_eq hit.1 own))) [
            | inr stay ↦ rw (mine, has, stay) moved
            | inl go ↦
                rw (mine, has, go)
                  (let other = neither_right (bytes_eq hit.1 []) (bytes_eq hit.1 own) go in
                    Balance-trans moved (
                      give-Balance k t' j hit.1 hit.1
                        (ap (λ x. holds x j) kept
                          ∙ contains-holds r.tokens j (ap (bytes_eq []) is_own ∙ named) has)
                        (ap (bytes_eq hit.1) (moved.same_id ∙ is_own) ∙ other)))
          ]
        ]
      ]

  master_commit-Balance :
      (r : Replica policy) (ms : MasterState policy) (c : Commit)
      → r.tokens.id ≡ own
      → bytes_eq [] own ≡ false
      → Balance k r.tokens
          (master_commit config own mid r ms c).0.tokens
          0
          (master_commit config own mid r ms c).1
  unfolding master_commit
  master_commit-Balance r ms c is_own named =
      Balance-resent (grant-Balance r ms c is_own named)
        (sent-append k (relay ms.leaders c) _ ∙ omega (arith, relay_lem k ms.leaders c))

  pub leader_commit-Balance :
      (r : Replica policy) (c : Commit)
      → r.tokens.id ≡ own
      → bytes_eq [] own ≡ false
      → Balance k r.tokens
          (leader_commit config own mid r c).0.tokens
          0
          (leader_commit config own mid r c).1
  unfolding leader_commit
  leader_commit-Balance r c is_own named = elim (Option-cases (master_of r)) [
    | inl leader ↦ rw (leader_commit, leader) (Balance-refl k r.tokens _ refl)
    | inr (ms, master) ↦
        rw (leader_commit, master)
          (Balance-resent (master_commit-Balance r ms c is_own named) (omega arith))
  ]

  commit_slot-Balance :
      (r : Replica policy) (m : Ack) (e : Entry)
      → r.tokens.id ≡ own
      → bytes_eq [] own ≡ false
      → Balance k r.tokens
          (commit_slot config own mid r m e).0.tokens
          0
          (commit_slot config own mid r m e).1
  unfolding commit_slot
  commit_slot-Balance r m e is_own named =
      let r1 = set_entry r m.key m.slot (record e { commit = true }) in
      let r' = (exec r1 m.key).0 in
      let c : Commit = record { ballot = r.ballot; slot = m.slot; command = e.cmd } in
      let first : Balance k r.tokens r'.tokens 0 (exec r1 m.key).1 = exec-Balance k r1 m.key in
      elim (Option-cases (master_of r')) [
        | inl leader ↦
            rw (commit_slot, leader) (Balance-trans first (Balance-refl k r'.tokens _ refl))
        | inr (ms, master) ↦
            let rest = master_commit-Balance r' ms c (first.same_id ∙ is_own) named in
            rw (commit_slot, master) (Balance-trans first (Balance-resent rest (omega arith)))
      ]

  pub handle_revoke-Balance :
      (r : Replica policy) (j : Key)
      → r.tokens.id ≡ own
      → bytes_eq [] own ≡ false
      → bytes_eq mid own ≡ false
      → Balance k r.tokens
          (handle_revoke config own mid r j).0.tokens
          0
          (handle_revoke config own mid r j).1
  unfolding handle_revoke
  handle_revoke-Balance r j is_own named apart =
      let t = contains r.tokens j in
      let first = contains-Balance k r.tokens j in
      elim (Bool-cases t.1) [
        | inr away ↦ rw away first
        | inl has ↦ rw has (
            Balance-trans first (
              give-Balance k t.0 j mid mid
                (contains-holds r.tokens j (ap (bytes_eq []) is_own ∙ named) has)
                (ap (bytes_eq mid) (first.same_id ∙ is_own) ∙ apart)))
      ]

  lead_pending-Balance :
      (r : Replica policy) (j : Key) (ms : List Request)
      → Balance k r.tokens
          (lead_pending config own mid r j ms).0.tokens
          0
          (lead_pending config own mid r j ms).1
  unfolding lead_pending
  lead_pending-Balance r j [] = Balance-refl k r.tokens [] refl
  lead_pending-Balance r j (q ∷ qs) =
      subst (λ x. Balance k r.tokens x 0 (lead config own mid r (q ∷ qs)).1)
        (sym (clear_pending_tokens k (lead config own mid r (q ∷ qs)).0 j))
        (lead-Balance config own mid k r (q ∷ qs))

  pub handle_token-Balance :
      (r : Replica policy) (j : Key)
      → Balance k r.tokens
          (handle_token config own mid r j).0.tokens
          (carried k (token j))
          (handle_token config own mid r j).1
  unfolding handle_token
  handle_token-Balance r j =
      let r' : Replica policy = record r { tokens = set r.tokens j own } in
      let first = take-Balance k r.tokens j own in
      elim (Option-cases (master_of r')) [
        | inl leader ↦ rw (handle_token, leader) first
        | inr (ms, master) ↦
            rw (handle_token, master)
              (Balance-then first (lead_pending-Balance r' j (ms.pending j)))
      ]

  pub handle_ack-Balance :
      (r : Replica policy) (l : LeaderState policy) (m : Ack)
      → r.tokens.id ≡ own
      → bytes_eq [] own ≡ false
      → Outcome config own mid k r 0 (handle_ack config own mid r l m)
  unfolding handle_ack
  handle_ack-Balance r l m is_own named = elim (Bool-cases (ltb m.ballot r.ballot)) [
    | inl stale ↦ rw (Outcome, stale) (Balance-refl k r.tokens [] refl)
    | inr now ↦ elim (Bool-cases (ltb r.ballot m.ballot)) [
      | inl newer ↦ rw (Outcome, now, newer) (Balance-refl k r.tokens [] refl)
      | inr same ↦ elim (Option-cases (entry_at r m.key m.slot)) [
        | inl missing ↦ rw (Outcome, now, same, missing) tt
        | inr (e, there) ↦ elim (Bool-cases e.commit) [
          | inl done ↦ rw (Outcome, now, same, there, done) (Balance-refl k r.tokens [] refl)
          | inr undecided ↦ elim (Option-cases e.quorum) [
            | inl proposal ↦ rw (Outcome, now, same, there, undecided, proposal) tt
            | inr (q, led) ↦ elim (Bool-cases (zone_majority config (ack q m.id))) [
              | inr few ↦
                  rw (Outcome, now, same, there, undecided, led, few)
                    (Balance-refl k r.tokens [] refl)
              | inl enough ↦
                  rw (Outcome, now, same, there, undecided, led, enough)
                    (commit_slot-Balance r m (record e { quorum = some (ack q m.id) }) is_own named)
            ]
          ]
        ]
      ]
    ]
  ]
