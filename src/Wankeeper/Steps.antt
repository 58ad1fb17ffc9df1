-- ===== src/Wankeeper/Steps.antt =====
-- What the steps of wankeeper/leader.go and wankeeper/master.go do with tokens.
use paxi.Common.{
  ℕ, zero, suc, ◌-◌, ◌≡◌, inl, inr, refl, subst, ◌∙◌, true, ◌||◌, Option, none, some, List, [], ◌∷◌,
  ◌++◌, bytes_eq, ltb, put, arith, Bool-cases, Option-cases,
}
use paxi.Id.{NodeId}
use paxi.Ballot.{ballot_id}
use paxi.Config.{Config}
use paxi.Quorum.{ack, zone_majority}
use paxi.Db
use paxi.Db.{Key}
use paxi.Message.{Request}
use paxi.Policy.{Policy}
use paxi.Wankeeper.{
  Vote, Output, revoke, send, contains, Entry, MasterState, LeaderState, Replica, master_of,
  set_master,
}
use paxi.Wankeeper.Leader.{
  init, ready, exec_step, answer_of, exec_loop, exec, await_token, propose, lead_one, lead,
  handle_vote, clear_pending,
}
use paxi.Wankeeper.Balance.{
  sent, Balance, Balance-refl, Balance-trans, Balance-same, Balance-resent, contains-Balance,
}

answer_of_lem :
    (k : Key) (e : Entry) (v : Db.Value) (out : List Output)
    → sent k (answer_of e v ++ out) ≡ sent k out
answer_of_lem k e v out = elim (Option-cases e.req) [
  | inl nobody ↦ rw (answer_of, nobody) refl
  | inr (q, asked) ↦ rw (answer_of, asked) refl
]

revoked_lem :
    (k : Key) (to : NodeId) (j : Key) (waiting : List Request)
    → sent k (elim waiting [ [] ↦ send to (revoke j) ∷ [] | q ∷ qs ↦ [] ]) ≡ 0
revoked_lem k to j [] = refl
revoked_lem k to j (q ∷ qs) = refl

module _ {policy : Policy} (k : Key) where
  pub set_master_tokens :
      (r : Replica policy) (ms : MasterState policy) → (set_master r ms).tokens ≡ r.tokens
  set_master_tokens r ms = elim (Option-cases r.leader) [
    | inl nobody ↦ rw (set_master, nobody) refl
    | inr (l, here) ↦ rw (set_master, here) refl
  ]

  pub clear_pending_tokens : (r : Replica policy) (j : Key) → (clear_pending r j).tokens ≡ r.tokens
  unfolding clear_pending
  clear_pending_tokens r j = elim (Option-cases (master_of r)) [
    | inl leader ↦ rw (clear_pending, leader) refl
    | inr (ms, master) ↦
        rw (clear_pending, master)
          (set_master_tokens r (record ms { pending = put ms.pending j [] }))
  ]

  pub init_tokens : (r : Replica policy) (j : Key) → (init r j).tokens ≡ r.tokens
  unfolding init
  init_tokens r j = elim (Option-cases (r.log j)) [
    | inl new ↦ rw (init, new) refl
    | inr (es, old) ↦ rw (init, old) refl
  ]

  exec_loop_lem :
      (fuel : ℕ) (r : Replica policy) (j : Key)
      → ((exec_loop fuel r j).0.tokens ≡ r.tokens) × (sent k (exec_loop fuel r j).1 ≡ 0)
  unfolding exec_loop exec_step
  exec_loop_lem zero r j = (refl, refl)
  exec_loop_lem (suc fuel) r j = elim (Option-cases (ready r j)) [
    | inl stop ↦ rw (exec_loop, stop) (refl, refl)
    | inr (e, go) ↦
        let (same, none_sent) = exec_loop_lem fuel (exec_step r j e) j in
        rw (exec_loop, go) (same, answer_of_lem k e _ _ ∙ none_sent)
  ]

  pub exec-Balance :
      (r : Replica policy) (j : Key) → Balance k r.tokens (exec r j).0.tokens 0 (exec r j).1
  unfolding exec
  exec-Balance r j =
      let (same, none_sent) = exec_loop_lem (suc (r.slot j) - r.executed j) r j in
      Balance-same same none_sent

  await_token-Balance :
      (r : Replica policy) (ms : MasterState policy) (m : Request)
      → Balance k r.tokens (await_token r ms m).0.tokens 0 (await_token r ms m).1
  unfolding await_token
  await_token-Balance r ms m =
      Balance-same (set_master_tokens r _)
        (revoked_lem k _ m.command.key (ms.pending m.command.key))

module _ {policy : Policy} (config : Config) (own : NodeId) (mid : NodeId) (k : Key) where
  -- A panic, or a step that keeps the balance.
  abbrev pub Outcome : Replica policy → ℕ → Option (Replica policy × List Output) → Type 0
  Outcome r got none = Unit
  Outcome r got (some s) = Balance k r.tokens s.0.tokens got s.1

  lead_one-Balance :
      (r : Replica policy) (m : Request)
      → Balance k r.tokens (lead_one config own mid r m).0.tokens 0 (lead_one config own mid r m).1
  unfolding lead_one propose
  lead_one-Balance r m =
      let j = m.command.key in
      let t = contains (init r j).tokens j in
      let r'' : Replica policy = record (init r j) { tokens = t.0 } in
      let first : Balance k r.tokens t.0 0 [] =
        subst (λ x. Balance k x t.0 0 []) (init_tokens k r j)
          (contains-Balance k (init r j).tokens j) in
      elim (Bool-cases t.1) [
        | inl has ↦ rw has (Balance-resent first refl)
        | inr away ↦ elim (Option-cases (master_of r'')) [
          | inl leader ↦ rw (away, leader) (Balance-resent first refl)
          | inr (ms, master) ↦
              rw (away, master) (Balance-trans first (await_token-Balance k r'' ms m))
        ]
      ]

  pub lead-Balance :
      (r : Replica policy) (ms : List Request)
      → Balance k r.tokens (lead config own mid r ms).0.tokens 0 (lead config own mid r ms).1
  unfolding lead
  lead-Balance r [] = Balance-refl k r.tokens [] refl
  lead-Balance r (m ∷ ms) =
      Balance-trans (lead_one-Balance r m) (lead-Balance (lead_one config own mid r m).0 ms)

  pub handle_vote-Balance :
      (r : Replica policy) (l : LeaderState policy) (m : Vote)
      → Balance k r.tokens
          (handle_vote config own mid r l m).0.tokens
          0
          (handle_vote config own mid r l m).1
  unfolding handle_vote
  handle_vote-Balance r l m =
      let q = ack l.quorum m.id in
      let r' : Replica policy = record r {
        leader = some (record l { active = true; quorum = q });
      } in
      elim (Bool-cases (ltb m.ballot r.ballot || l.active)) [
        | inl stale ↦ rw stale (Balance-refl k r.tokens [] refl)
        | inr now ↦ elim (Bool-cases (ltb r.ballot m.ballot)) [
          | inl newer ↦ rw (now, newer) (Balance-refl k r.tokens [] refl)
          | inr same ↦ elim (Bool-cases (bytes_eq (ballot_id m.ballot) own)) [
            | inr other ↦ rw (now, same, other) (Balance-refl k r.tokens [] refl)
            | inl mine ↦ elim (Bool-cases (zone_majority config q)) [
              | inr few ↦ rw (now, same, mine, few) (Balance-refl k r.tokens [] refl)
              | inl enough ↦
                  rw (now, same, mine, enough)
                    (Balance-resent (lead-Balance r' r.requests) (omega arith))
            ]
          ]
        ]
      ]
