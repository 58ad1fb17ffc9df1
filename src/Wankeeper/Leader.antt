-- ===== src/Wankeeper/Leader.antt =====
-- wankeeper/leader.go, wankeeper/master.go, and the methods init and exec of wankeeper/replica.go.
use paxi.Common.{
  ℕ, zero, suc, ◌-◌, true, false, not, ◌&&◌, ◌||◌, Option, none, some, List, [], ◌∷◌, ◌++◌,
  bytes_eq, ltb, ◌==◌, if◌then◌else◌, put,
}
use paxi.Id.{NodeId, zone}
use paxi.Ballot.{ballot_id}
use paxi.Config.{Config}
use paxi.Quorum.{new_quorum, ack, reset, zone_majority}
use paxi.Db
use paxi.Db.{Key, Value}
use paxi.Message.{Request}
use paxi.Policy.{Policy}
use paxi.Wankeeper.{
  Vote, Ack, Commit, Output, new_leader, proposed, committed, token, revoke, send, multicast_zone,
  forward, reply, contains, get, set, Entry, MasterState, LeaderState, Replica, entry_at, set_entry,
  master_of, set_master,
}

abbrev pub answer_of : Entry → Value → List Output
answer_of e value = elim e.req [
  | none ↦ []
  | some q ↦
      reply q (record { command = e.cmd; value = value; properties = []; timestamp = 0 }) ∷ []
]

-- handleNewLeader of the master.
unfoldable pub add_leader : List (ℕ × NodeId) → ℕ → NodeId → List (ℕ × NodeId)
add_leader [] z id = (z, id) ∷ []
add_leader ((y, i) ∷ ls) z id =
    let rest = add_leader ls z id in if y == z then (y, id) ∷ ls else (y, i) ∷ rest

-- The loop over the leaders.
unfoldable pub relay : List (ℕ × NodeId) → Commit → List Output
relay [] c = []
relay ((z, id) ∷ ls) c =
    let rest = relay ls c in
    if bytes_eq id (ballot_id c.ballot) then rest else send id (committed c) ∷ rest

module _ {policy : Policy} where
  unfoldable pub init : Replica policy → Key → Replica policy
  init r k = elim (r.log k) [
    | none ↦ record r { log = put r.log k (some (λ s. none)); executed = put r.executed k 1 }
    | some entries ↦ r
  ]

  -- The committed entry that is next in the execution order of the key.
  unfoldable pub ready : Replica policy → Key → Option Entry
  ready r k = elim (entry_at r k (r.executed k)) [
    | none ↦ none
    | some e ↦ if e.commit then some e else none
  ]

  -- One round of exec.
  unfoldable pub exec_step : Replica policy → Key → Entry → Replica policy
  exec_step r k e = record (set_entry r k (r.executed k) (record e { req = none })) {
    executed = put r.executed k (suc (r.executed k));
    db = (Db.execute r.db e.cmd).0;
  }

  -- exec, on fuel.
  unfoldable pub exec_loop : ℕ → Replica policy → Key → Replica policy × List Output
  unfolding ready exec_step
  exec_loop zero r k = (r, [])
  exec_loop (suc fuel) r k = elim (ready r k) [
    | none ↦ (r, [])
    | some e ↦
        let (r', out) = exec_loop fuel (exec_step r k e) k in
        (r', answer_of e (Db.execute r.db e.cmd).1 ++ out)
  ]

  -- The slots in use bound the rounds.
  unfoldable pub exec : Replica policy → Key → Replica policy × List Output
  unfolding exec_loop
  exec r k = exec_loop (suc (r.slot k) - r.executed k) r k

  -- master.lead
  unfoldable pub await_token :
      Replica policy → MasterState policy → Request → Replica policy × List Output
  await_token r ms m =
      let k = m.command.key in
      (
        set_master r (record ms { pending = put ms.pending k (ms.pending k ++ m ∷ []) }),
        elim (ms.pending k) [ [] ↦ send (get r.tokens k) (revoke k) ∷ [] | q ∷ qs ↦ [] ],
      )

  -- `m.pending[t.Key] = nil`
  unfoldable pub clear_pending : Replica policy → Key → Replica policy
  clear_pending r k = elim (master_of r) [
    | none ↦ r
    | some ms ↦ set_master r (record ms { pending = put ms.pending k [] })
  ]

module _ {policy : Policy} (config : Config) (own : NodeId) (mid : NodeId) where
  -- A request for a key whose token the leader has gets the next slot.
  unfoldable pub propose : Replica policy → Request → Replica policy × List Output
  propose r m =
      let k = m.command.key in
      let s = suc (r.slot k) in
      (
        set_entry (record r { slot = put r.slot k s }) k s
            (record {
              cmd = m.command;
              commit = false;
              req = some m;
              quorum = some (ack new_quorum own);
            }),
        multicast_zone (zone own)
              (proposed (record { ballot = r.ballot; slot = s; command = m.command }))
            ∷ [],
      )

  -- leader.lead for one request.
  unfoldable pub lead_one : Replica policy → Request → Replica policy × List Output
  unfolding init propose await_token
  lead_one r m =
      let r' = init r m.command.key in
      let (t, has) = contains r'.tokens m.command.key in
      let r'' = record r' { tokens = t } in
      if has then propose r'' m else elim (master_of r'') [
        | none ↦ (r'', forward mid m ∷ [])
        | some ms ↦ await_token r'' ms m
      ]

  unfoldable pub lead : Replica policy → List Request → Replica policy × List Output
  unfolding lead_one
  lead r [] = (r, [])
  lead r (m ∷ ms) =
      let (r', out) = lead_one r m in let (r'', outs) = lead r' ms in (r'', out ++ outs)

  unfoldable pub handle_vote :
      Replica policy → LeaderState policy → Vote → Replica policy × List Output
  unfolding lead
  handle_vote r l m =
      if ltb m.ballot r.ballot || l.active
      then (r, [])
      else (if ltb r.ballot m.ballot
          then (
            record r {
              leader = some (record l { active = false; quorum = reset l.quorum });
              ballot = m.ballot;
            },
            [],
          )
          else (if bytes_eq (ballot_id m.ballot) own
              then (let q = ack l.quorum m.id in
                  if zone_majority config q
                  then (let (r', out) =
                        lead (record r { leader = some (record l { active = true; quorum = q }) })
                          r.requests in
                      (
                        r',
                        multicast_zone (zone own) (new_leader r.ballot)
                            ∷ send mid (new_leader r.ballot)
                            ∷ out,
                      ))
                  else (record r { leader = some (record l { quorum = q }) }, []))
              else (r, [])))

  -- master.handleCommit up to the loop: the policy may give the token to another leader.
  unfoldable pub grant : Replica policy → MasterState policy → Commit → Replica policy × List Output
  grant r ms c =
      let k = c.command.key in
      if bytes_eq (ballot_id c.ballot) own
      then (let (t, has) = contains r.tokens k in
          let r' = record r { tokens = t } in
          if has
          then (let (state, id) =
                policy.hit (elim (ms.policies k) [ none ↦ policy.fresh | some s ↦ s ])
                  c.command.client_id in
              let r'' = set_master r' (record ms { policies = put ms.policies k (some state) }) in
              if not (bytes_eq id []) && not (bytes_eq id own)
              then (record r'' { tokens = set r''.tokens k id }, send id (token k) ∷ [])
              else (r'', []))
          else (r', []))
      else (r, [])

  -- master.handleCommit; the deferred call comes last.
  unfoldable pub master_commit :
      Replica policy → MasterState policy → Commit → Replica policy × List Output
  unfolding grant
  master_commit r ms c = let (r', out) = grant r ms c in (r', relay ms.leaders c ++ out)

  -- leader.handleAck from the zone majority on.
  unfoldable pub commit_slot : Replica policy → Ack → Entry → Replica policy × List Output
  unfolding exec master_commit
  commit_slot r m e =
      let c : Commit = record { ballot = r.ballot; slot = m.slot; command = e.cmd } in
      let (r', out) = exec (set_entry r m.key m.slot (record e { commit = true })) m.key in
      elim (master_of r') [
        | none ↦ (r', out ++ multicast_zone (zone own) (committed c) ∷ send mid (committed c) ∷ [])
        | some ms ↦
            let (r'', outs) = master_commit r' ms c in
            (r'', out ++ multicast_zone (zone own) (committed c) ∷ outs)
      ]

  -- A missing entry, and an entry without a quorum, panic.
  unfoldable pub handle_ack :
      Replica policy → LeaderState policy → Ack → Option (Replica policy × List Output)
  unfolding commit_slot
  handle_ack r l m =
      if ltb m.ballot r.ballot
      then some (r, [])
      else (if ltb r.ballot m.ballot
          then some
              (record r { ballot = m.ballot; leader = some (record l { active = false }) }, [])
          else elim (entry_at r m.key m.slot) [
            | none ↦ none
            | some e ↦ if e.commit then some (r, []) else elim e.quorum [
              | none ↦ none
              | some q ↦
                  let e' = record e { quorum = some (ack q m.id) } in
                  if zone_majority config (ack q m.id)
                  then some (commit_slot r m e')
                  else some (set_entry r m.key m.slot e', [])
            ]
          ])

  unfoldable pub handle_revoke : Replica policy → Key → Replica policy × List Output
  handle_revoke r k =
      let (t, has) = contains r.tokens k in
      if has
      then (record r { tokens = set t k mid }, send mid (token k) ∷ [])
      else (record r { tokens = t }, [])

  -- master.handleToken
  unfoldable pub lead_pending : Replica policy → Key → List Request → Replica policy × List Output
  unfolding lead clear_pending
  lead_pending r k [] = (r, [])
  lead_pending r k (q ∷ qs) = let (r', out) = lead r (q ∷ qs) in (clear_pending r' k, out)

  unfoldable pub handle_token : Replica policy → Key → Replica policy × List Output
  unfolding lead_pending
  handle_token r k =
      let r' = record r { tokens = set r.tokens k own } in
      elim (master_of r') [ none ↦ (r', []) | some ms ↦ lead_pending r' k (ms.pending k) ]

  -- leader.handleCommit
  unfoldable pub leader_commit : Replica policy → Commit → Replica policy × List Output
  unfolding master_commit
  leader_commit r c = elim (master_of r) [
    | none ↦ (r, multicast_zone (zone own) (committed c) ∷ [])
    | some ms ↦
        let (r', out) = master_commit r ms c in (r', multicast_zone (zone own) (committed c) ∷ out)
  ]
