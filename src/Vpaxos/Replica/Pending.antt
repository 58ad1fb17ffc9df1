-- ===== src/Vpaxos/Replica/Pending.antt =====
-- The requests that wait for the master in vpaxos/replica.go when its answer comes.
use paxi.Common.{
  ℕ, ◌<◌, ◌≡◌, ◌⊎◌, inl, inr, refl, sym, ap, subst, ◌∙◌, false, not, Option, none, some, List, [],
  ◌∷◌, ◌++◌, bytes_eq, ◌==◌, ==_self, put, In, arith, Bool-cases, Option-cases, ◌&&◌,
}
use paxi.Id.{NodeId, zone}
use paxi.Ballot.{Ballot, ballot_id}
use paxi.Config.{Config}
use paxi.Db.{Key}
use paxi.Message.{Request}
use paxi.Policy.{Policy}
use paxi.Quorum.{new_quorum, ack}
use paxi.Paxos.{Entry, Paxos}
use paxi.Vpaxos.{MasterState, Move, Info, Output, forward, handle_move, or_zero}
use paxi.Vpaxos.Instance
use paxi.Vpaxos.Replica.Keyed.{Reachable, Reachable-Keyed, take_info_keeps}
use paxi.Vpaxos.Replica.{
  Replica, or_empty, move_here, monitor, serve, handle_request, handle_requests, take_info, settle,
  handle_info,
}

-- The instance has the request: it waits for phase 1, or it has been proposed in a slot in use.
abbrev pub Holds : Request → Paxos → Type 0
Holds q p =
    In q p.requests
    ⊎ ((s : ℕ) × (e : Entry) × (s < p.slots) × (p.log s ≡ some e) × (e.request ≡ some q))

-- The request was forwarded to some node.
abbrev pub Forwarded : Request → List Output → Type 0
Forwarded q out = (to : NodeId) × In (forward to q) out

In-left : {A : Type 0} (x : A) (xs ys : List A) → In x xs → In x (xs ++ ys)
In-left x [] ys i = absurd i
In-left x (y ∷ xs) ys (inl p) = inl p
In-left x (y ∷ xs) ys (inr i) = inr (In-left x xs ys i)

In-right : {A : Type 0} (x : A) (xs ys : List A) → In x ys → In x (xs ++ ys)
In-right x [] ys i = i
In-right x (y ∷ xs) ys i = inr (In-right x xs ys i)

module _ (policy : Policy) (config : Config) (own : NodeId) (mid : NodeId) where
  instance_holds :
      (p : Paxos) (m : Request)
      → Holds m (Instance.handle_request config own p m).0
        × ((q : Request) → Holds q p → Holds q (Instance.handle_request config own p m).0)
  unfolding Instance.handle_request Instance.propose
  instance_holds p m =
      let e0 : Entry = record {
        ballot = p.ballot;
        command = m.command;
        commit = false;
        request = some m;
        quorum = some (ack new_quorum own);
      } in
      elim (Bool-cases p.active) [
        | inl active ↦ rw active (
          inr (p.slots, e0, omega arith, rw (==_self p.slots) refl, refl),
          λ q h. elim h [
            | inl i ↦ inl i
            | inr (s, e, below, at_s, has) ↦
                let apart : (p.slots == s) ≡ false = ground (arith, below) in
                inr (s, e, omega (arith, below), rw apart at_s, has)
          ],
        )
        | inr idle ↦ rw idle (
          inl (In-right m p.requests (m ∷ []) (inl refl)),
          λ q h. elim h [ inl i ↦ inl (In-left q p.requests (m ∷ []) i) | inr held ↦ inr held ],
        )
      ]

  -- What a step keeps: the requests that the instance has, and that a key is known.
  record Keeps (r r' : Replica policy) : Type 0 where
    holds : (q : Request) → Holds q r.paxos → Holds q r'.paxos
    indexed : (k : Key) (b : Ballot) → r.index k ≡ some b → (b' : Ballot) × (r'.index k ≡ some b')

  Keeps-refl : (r : Replica policy) → Keeps r r
  Keeps-refl r = record { holds = λ q h. h; indexed = λ k b h. (b, h) }

  Keeps-trans : {r r' r'' : Replica policy} → Keeps r r' → Keeps r' r'' → Keeps r r''
  Keeps-trans f g = record {
    holds = λ q h. g.holds q (f.holds q h);
    indexed = λ k b h. let (b', h') = f.indexed k b h in g.indexed k b' h';
  }

  put_indexed :
      (index : Key → Option Ballot) (j : Key) (c : Ballot) (k : Key) (b : Ballot)
      → index k ≡ some b
      → (b' : Ballot) × (put index j (some c) k ≡ some b')
  put_indexed index j c k b h = elim (Bool-cases (j == k)) [
    | inl same ↦ (c, rw same refl)
    | inr apart ↦ (b, rw apart h)
  ]

  move_here-Keeps :
      (r : Replica policy) (m : MasterState) (v : Move)
      → Keeps r (move_here policy config own mid r m v).0
  unfolding move_here
  move_here-Keeps r m v =
      let b = or_zero ((handle_move m v).0.ballots (zone v.to)) in
      elim (Bool-cases (bytes_eq (ballot_id b) own)) [
        | inl mine ↦ rw mine (record { holds = λ q h. h; indexed = put_indexed r.index v.key b })
        | inr other ↦ rw other (record { holds = λ q h. h; indexed = put_indexed r.index v.key b })
      ]

  monitor-Keeps :
      (r : Replica policy) (k : Key) (id : NodeId)
      → Keeps r (monitor policy config own mid r k id).0
  unfolding monitor
  monitor-Keeps r k id =
      let got = policy.hit (elim (r.policies k) [ none ↦ policy.fresh | some s ↦ s ]) id in
      let to = got.1 in
      let r' : Replica policy = record r { policies = put r.policies k (some got.0) } in
      let v : Move = record { key = k; from = own; to = to } in
      elim (Bool-cases (not (bytes_eq to []) && not (zone to == zone own))) [
        | inr stay ↦ rw stay (record { holds = λ q h. h; indexed = λ k b h. (b, h) })
        | inl go ↦ elim (Option-cases r.master) [
          | inl away ↦ rw (go, away) (record { holds = λ q h. h; indexed = λ k b h. (b, h) })
          | inr (m, here) ↦
              let kept = move_here-Keeps r' m v in
              rw (go, here) (record { holds = kept.holds; indexed = kept.indexed })
        ]
      ]

  serve_lem :
      (r : Replica policy) (b : Ballot) (m : Request)
      → Keeps r (serve policy config own mid r b m).0
        × (Forwarded m (serve policy config own mid r b m).1
            ⊎ Holds m (serve policy config own mid r b m).0.paxos)
  unfolding serve
  serve_lem r b m = elim (Bool-cases (bytes_eq (ballot_id b) own)) [
    | inr other ↦ rw other (Keeps-refl r, inl (ballot_id b, inl refl))
    | inl mine ↦
        let (has, kept) = instance_holds r.paxos m in
        let r1 : Replica policy = record r {
          paxos = (Instance.handle_request config own r.paxos m).0;
        } in
        let first : Keeps r r1 = record { holds = kept; indexed = λ k b h. (b, h) } in
        let next = monitor-Keeps r1 m.command.key m.node_id in
        rw mine (Keeps-trans first next, inr (next.holds m has))
  ]

  handle_request-serve :
      (r : Replica policy) (m : Request) (b : Ballot)
      → r.index m.command.key ≡ some b
      → handle_request policy config own mid r m ≡ serve policy config own mid r b m
  unfolding handle_request
  handle_request-serve r m b known = rw (handle_request, known) refl

  handle_requests_lem :
      (r : Replica policy) (ms : List Request) (k : Key) (b : Ballot)
      → r.index k ≡ some b
      → ((q : Request) → In q ms → q.command.key ≡ k)
      → Keeps r (handle_requests policy config own mid r ms).0
        × ((q : Request)
            → In q ms
            → Forwarded q (handle_requests policy config own mid r ms).1
              ⊎ Holds q (handle_requests policy config own mid r ms).0.paxos)
  unfolding handle_requests
  handle_requests_lem r [] k b known keyed = (Keeps-refl r, λ q i. absurd i)
  handle_requests_lem r (m ∷ ms) k b known keyed =
      let at_m : r.index m.command.key ≡ some b = ap r.index (keyed m (inl refl)) ∙ known in
      let (kept, now) = serve_lem r b m in
      let r1 = (serve policy config own mid r b m).0 in
      let (b', known') = kept.indexed k b known in
      let (later, rest) = handle_requests_lem r1 ms k b' known' (λ q i. keyed q (inr i)) in
      let out = (serve policy config own mid r b m).1 in
      let outs = (handle_requests policy config own mid r1 ms).1 in
      rw (handle_requests, handle_request-serve r m b at_m)
        (
          Keeps-trans kept later,
          λ q i. elim i [
            | inl same ↦
                subst
                  (λ x.
                    Forwarded x (out ++ outs)
                    ⊎ Holds x (handle_requests policy config own mid r1 ms).0.paxos)
                  (sym same)
                  (elim now [
                    | inl (to, sent) ↦ inl (to, In-left (forward to m) out outs sent)
                    | inr held ↦ inr (later.holds m held)
                  ])
            | inr i' ↦ elim (rest q i') [
              | inl (to, sent) ↦ inl (to, In-right (forward to q) out outs sent)
              | inr held ↦ inr held
            ]
          ],
        )

  settle_lem :
      (r : Replica policy) (ms : List Request) (k : Key) (b : Ballot)
      → r.index k ≡ some b
      → or_empty (r.pending k) ≡ ms
      → ((q : Request) → In q ms → q.command.key ≡ k)
      → Keeps r (settle policy config own mid r k ms).0
        × ((q : Request)
            → In q ms
            → Forwarded q (settle policy config own mid r k ms).1
              ⊎ Holds q (settle policy config own mid r k ms).0.paxos)
        × (or_empty ((settle policy config own mid r k ms).0.pending k) ≡ [])
  unfolding settle
  settle_lem r [] k b known waits keyed = (Keeps-refl r, λ q i. absurd i, waits)
  settle_lem r (m ∷ ms) k b known waits keyed =
      let (kept, done) = handle_requests_lem r (m ∷ ms) k b known keyed in
      (record { holds = kept.holds; indexed = kept.indexed }, done, rw (==_self k) refl)

  take_info_lem :
      (r : Replica policy) (m : Info)
      → ((take_info policy config own mid r m).0.index m.key ≡ some m.ballot)
        × ((q : Request) → Holds q r.paxos → Holds q (take_info policy config own mid r m).0.paxos)
  unfolding take_info
  take_info_lem r m = elim (Bool-cases (bytes_eq (ballot_id m.ballot) own)) [
    | inr other ↦ rw (other, ==_self m.key) (refl, λ q h. h)
    | inl mine ↦ elim (Bool-cases (m.old_ballot == 0)) [
      | inl first ↦ rw (mine, first, ==_self m.key) (refl, λ q h. h)
      | inr moved ↦ rw (mine, moved, ==_self m.key) (refl, λ q h. h)
    ]
  ]

  -- When the answer of the master comes to a node in a reachable state, every request that waited for the ballot of its key is
  -- forwarded to a node or is with the instance, which proposed it or keeps it for phase 1;
  -- the requests that the instance had before stay there, and none waits for the key any more.
  pub handle_info-Holds :
      {r : Replica policy} (m : Info)
      → Reachable policy config own mid r
      → ((q : Request)
          → In q (or_empty (r.pending m.key))
          → Forwarded q (handle_info policy config own mid r m).1
            ⊎ Holds q (handle_info policy config own mid r m).0.paxos)
        × ((q : Request)
            → Holds q r.paxos
            → Holds q (handle_info policy config own mid r m).0.paxos)
        × (or_empty ((handle_info policy config own mid r m).0.pending m.key) ≡ [])
  unfolding handle_info
  handle_info-Holds {r} m reached =
      let (known, kept) = take_info_lem r m in
      let same = take_info_keeps policy config own mid r m in
      let r1 = (take_info policy config own mid r m).0 in
      let out = (take_info policy config own mid r m).1 in
      let outs = (settle policy config own mid r1 m.key (or_empty (r1.pending m.key))).1 in
      let waits : or_empty (r1.pending m.key) ≡ or_empty (r.pending m.key) =
        ap (λ f. or_empty (f m.key)) same in
      let (after, done, none_waits) =
        settle_lem r1 (or_empty (r1.pending m.key)) m.key m.ballot known refl
          (λ q i. Reachable-Keyed policy config own mid reached m.key q (subst (In q) waits i)) in
      (
        λ q i. elim (done q (subst (In q) (sym waits) i)) [
          | inl (to, sent) ↦ inl (to, In-right (forward to q) out outs sent)
          | inr held ↦ inr held
        ],
        λ q h. after.holds q (kept q h),
        none_waits,
      )
