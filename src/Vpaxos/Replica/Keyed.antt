-- ===== src/Vpaxos/Replica/Keyed.antt =====
-- The requests that wait in vpaxos/replica.go, by the key they are for.
use paxi.Common.{
  ◌≡◌, ◌⊎◌, inl, inr, refl, sym, ap, subst, ◌∙◌, not, Option, none, some, List, [], ◌∷◌, ◌++◌,
  bytes_eq, ◌==◌, ==→eq, put, In, Bool-cases, Option-cases, ◌&&◌,
}
use paxi.Id.{NodeId, zone}
use paxi.Ballot.{Ballot, ballot_id}
use paxi.Config.{Config}
use paxi.Db.{Key}
use paxi.Message.{Request}
use paxi.Policy.{Policy}
use paxi.Vpaxos.{
  MasterState, Move, Info, Message, Output, p1a, p1b, p2a, p2b, p3, query_master, info, move, query,
  handle_move, or_zero,
}
use paxi.Paxos.{Paxos}
use paxi.Vpaxos.Instance
use paxi.Vpaxos.Replica.{
  Replica, or_empty, move_here, monitor, serve, ask_master, handle_request, handle_requests,
  take_info, settle, handle_info, handle_p1a, deliver, new_replica,
}

-- A request waits only under its own key.
abbrev pub Keyed : (Key → Option (List Request)) → Type 0
Keyed pending = (k : Key) (q : Request) → In q (or_empty (pending k)) → q.command.key ≡ k

In-append : (q m : Request) (xs : List Request) → In q (xs ++ m ∷ []) → In q xs ⊎ (q ≡ m)
In-append q m [] (inl p) = inr p
In-append q m [] (inr i) = absurd i
In-append q m (x ∷ xs) (inl p) = inl (inl p)
In-append q m (x ∷ xs) (inr i) = elim (In-append q m xs i) [ inl j ↦ inl (inr j) | inr p ↦ inr p ]

module _ (policy : Policy) (config : Config) (own : NodeId) (mid : NodeId) where
  move_here_lem :
      (r : Replica policy) (m : MasterState) (v : Move)
      → (move_here policy config own mid r m v).0.pending ≡ r.pending
  unfolding move_here
  move_here_lem r m v =
      let b = or_zero ((handle_move m v).0.ballots (zone v.to)) in
      elim (Bool-cases (bytes_eq (ballot_id b) own)) [
        | inl mine ↦ rw mine refl
        | inr other ↦ rw other refl
      ]

  monitor_lem :
      (r : Replica policy) (k : Key) (id : NodeId)
      → (monitor policy config own mid r k id).0.pending ≡ r.pending
  unfolding monitor
  monitor_lem r k id =
      let got = policy.hit (elim (r.policies k) [ none ↦ policy.fresh | some s ↦ s ]) id in
      let r' : Replica policy = record r { policies = put r.policies k (some got.0) } in
      let v : Move = record { key = k; from = own; to = got.1 } in
      elim (Bool-cases (not (bytes_eq got.1 []) && not (zone got.1 == zone own))) [
        | inr stay ↦ rw stay refl
        | inl go ↦ elim (Option-cases r.master) [
          | inl away ↦ rw (go, away) refl
          | inr (m, here) ↦ rw (go, here) (move_here_lem r' m v)
        ]
      ]

  serve_lem :
      (r : Replica policy) (b : Ballot) (m : Request)
      → (serve policy config own mid r b m).0.pending ≡ r.pending
  unfolding serve
  serve_lem r b m = elim (Bool-cases (bytes_eq (ballot_id b) own)) [
    | inr other ↦ rw other refl
    | inl mine ↦ rw mine (
        monitor_lem (record r { paxos = (Instance.handle_request config own r.paxos m).0 })
          m.command.key m.node_id)
  ]

  ask_master_lem :
      (r : Replica policy) (m : MasterState) (k : Key)
      → (ask_master policy config own mid r m k).0.pending ≡ r.pending
  unfolding ask_master
  ask_master_lem r m k = elim (Bool-cases (bytes_eq (ballot_id (query m k own).1) own)) [
    | inl mine ↦ rw mine refl
    | inr other ↦ rw other refl
  ]

  handle_request-Keyed :
      (r : Replica policy) (m : Request)
      → Keyed r.pending
      → Keyed (handle_request policy config own mid r m).0.pending
  unfolding handle_request
  handle_request-Keyed r m keyed = elim (Option-cases (r.index m.command.key)) [
    | inr (b, known) ↦ rw (handle_request, known) (subst Keyed (sym (serve_lem r b m)) keyed)
    | inl unknown ↦ elim (Option-cases r.master) [
      | inr (ms, here) ↦
          rw (handle_request, unknown, here)
            (let (r', b) = ask_master policy config own mid r ms m.command.key in
              let same = serve_lem r' b m ∙ ask_master_lem r ms m.command.key in
              subst Keyed (sym same) keyed)
      | inl away ↦
          rw (handle_request, unknown, away)
            (λ k q i. elim (Bool-cases (m.command.key == k)) [
              | inr apart ↦ keyed k q (rw apart at i)
              | inl same ↦
                  let to_k : m.command.key ≡ k = ==→eq m.command.key k same in
                  elim (In-append q m (or_empty (r.pending m.command.key)) (rw same at i)) [
                    | inl before ↦ keyed m.command.key q before ∙ to_k
                    | inr is_m ↦ ap (λ x. x.command.key) is_m ∙ to_k
                  ]
            ])
    ]
  ]

  handle_requests-Keyed :
      (r : Replica policy) (ms : List Request)
      → Keyed r.pending
      → Keyed (handle_requests policy config own mid r ms).0.pending
  unfolding handle_requests
  handle_requests-Keyed r [] keyed = keyed
  handle_requests-Keyed r (m ∷ ms) keyed =
      handle_requests-Keyed (handle_request policy config own mid r m).0 ms
        (handle_request-Keyed r m keyed)

  settle-Keyed :
      (r : Replica policy) (k : Key) (ms : List Request)
      → Keyed r.pending
      → Keyed (settle policy config own mid r k ms).0.pending
  unfolding settle
  settle-Keyed r k [] keyed = keyed
  settle-Keyed r k (m ∷ ms) keyed = λ j q i. elim (Bool-cases (k == j)) [
    | inl same ↦ absurd (rw same at i)
    | inr apart ↦ handle_requests-Keyed r (m ∷ ms) keyed j q (rw apart at i)
  ]

  pub take_info_keeps :
      (r : Replica policy) (m : Info) → (take_info policy config own mid r m).0.pending ≡ r.pending
  unfolding take_info
  take_info_keeps r m = elim (Bool-cases (bytes_eq (ballot_id m.ballot) own)) [
    | inr other ↦ rw other refl
    | inl mine ↦ elim (Bool-cases (m.old_ballot == 0)) [
      | inl first ↦ rw (mine, first) refl
      | inr moved ↦ rw (mine, moved) refl
    ]
  ]

  abbrev OutcomeKeyed : Option (Replica policy × List Output) → Type 0
  OutcomeKeyed none = Unit
  OutcomeKeyed (some s) = Keyed s.0.pending

  deliver-Keyed :
      (r : Replica policy) (m : Message)
      → Keyed r.pending
      → OutcomeKeyed (deliver policy config own mid r m)
  unfolding deliver handle_info handle_p1a
  deliver-Keyed r (info m) keyed =
      let r1 = (take_info policy config own mid r m).0 in
      settle-Keyed r1 m.key (or_empty (r1.pending m.key))
        (subst Keyed (sym (take_info_keeps r m)) keyed)
  deliver-Keyed r (p1a m) keyed = keyed
  deliver-Keyed r (p1b m) keyed = keyed
  deliver-Keyed r (p2a m) keyed = keyed
  deliver-Keyed r (p2b m) keyed = elim (Option-cases (Instance.handle_p2b config own r.paxos m)) [
    | inl panic ↦ rw (OutcomeKeyed, deliver, panic) tt
    | inr (s, step) ↦ rw (OutcomeKeyed, deliver, step) keyed
  ]
  deliver-Keyed r (p3 m) keyed = keyed
  deliver-Keyed r (query_master m) keyed = elim (Option-cases r.master) [
    | inl away ↦ rw (OutcomeKeyed, deliver, away) tt
    | inr (ms, here) ↦ rw (OutcomeKeyed, deliver, here) keyed
  ]
  deliver-Keyed r (move m) keyed = elim (Option-cases r.master) [
    | inl away ↦ rw (OutcomeKeyed, deliver, away) tt
    | inr (ms, here) ↦
        rw (OutcomeKeyed, deliver, here) (subst Keyed (sym (move_here_lem r ms m)) keyed)
  ]

  -- The states of a replica after requests of clients and messages, in any order.
  pub data Reachable : Replica policy → Type 0 where
    start : (p : Paxos) → Reachable (new_replica policy own mid p)
    ask :
        {r : Replica policy}
        → Reachable r
        → (m : Request) → Reachable (handle_request policy config own mid r m).0
    receive :
        {r r' : Replica policy}
        → Reachable r
        → (m : Message) (out : List Output) → deliver policy config own mid r m ≡ some (r', out)
        → Reachable r'

  pub Reachable-Keyed : {r : Replica policy} → Reachable r → Keyed r.pending
  unfolding new_replica
  Reachable-Keyed (start p) = λ k q i. absurd i
  Reachable-Keyed (ask {r} reached m) = handle_request-Keyed r m (Reachable-Keyed reached)
  Reachable-Keyed (receive {r} {r'} reached m out h) =
      subst OutcomeKeyed h (deliver-Keyed r m (Reachable-Keyed reached))
