-- ===== src/Vpaxos/Master.antt =====
-- The answers of the master of vpaxos/master.go after a move.
use paxi.Common.{
  ℕ, ◌≡◌, refl, sym, ap, ◌∙◌, some, List, [], ◌∷◌, ◌==◌, ==→eq, ==_self, arith, inl, inr,
  Bool-cases, Option-cases,
}
use paxi.Id.{NodeId, zone}
use paxi.Ballot.{Ballot, next}
use paxi.Db.{Key}
use paxi.Vpaxos.{
  MasterState, Query, Move, or_zero, assign, query, handle_query, handle_move, queries,
}

-- The key has the zone `z` and the zone the ballot `b`.
pub record Assigned (m : MasterState) (k : Key) (z : ℕ) (b : Ballot) : Type 0 where
  pub zoned : m.keys k ≡ some z
  pub led : m.ballots z ≡ some b

query-Assigned :
    (m : MasterState) (k : Key) (z : ℕ) (b : Ballot) (id : NodeId)
    → Assigned m k z b
    → (query m k id).1 ≡ b
unfolding query
query-Assigned m k z b id h = rw (query, h.zoned, h.led) refl

assign-ballots :
    (m : MasterState) (k : Key) (id : NodeId) (z : ℕ) (b : Ballot)
    → m.ballots z ≡ some b
    → (assign m k id).ballots z ≡ some b
unfolding assign
assign-ballots m k id z b h = elim (Option-cases (m.ballots (zone id))) [
  | inr (c, has) ↦ rw has h
  | inl missing ↦ elim (Bool-cases (zone id == z)) [
    | inr apart ↦ rw (missing, apart) h
    | inl same ↦
        let never = sym missing ∙ (ap m.ballots (==→eq (zone id) z same) ∙ h) in
        absurd (ground arith)
  ]
]

handle_query-Assigned :
    (m : MasterState) (k : Key) (z : ℕ) (b : Ballot) (q : Query)
    → Assigned m k z b
    → Assigned (handle_query m q).0 k z b
unfolding handle_query query
handle_query-Assigned m k z b q h = elim (Option-cases (m.keys q.key)) [
  | inr (y, has) ↦ rw (handle_query, query, has) h
  | inl missing ↦
      rw (handle_query, query, missing)
        (record {
          zoned = elim (Bool-cases (q.key == k)) [
            | inr apart ↦ unfold assign in rw apart h.zoned
            | inl same ↦
                let never = sym missing ∙ (ap m.keys (==→eq q.key k same) ∙ h.zoned) in
                absurd (ground arith)
          ];
          led = assign-ballots m q.key q.id z b h.led;
        })
]

queries-Assigned :
    (m : MasterState) (k : Key) (z : ℕ) (b : Ballot) (qs : List Query)
    → Assigned m k z b
    → Assigned (queries m qs) k z b
unfolding queries
queries-Assigned m k z b [] h = h
queries-Assigned m k z b (q ∷ qs) h =
    queries-Assigned (handle_query m q).0 k z b qs (handle_query-Assigned m k z b q h)

-- A key is moved to the next ballot of the zone of the new leader, for that leader; whatever queries
-- follow, for any keys and by any nodes, a query for the key is answered with that ballot.
pub move_holds :
    (m : MasterState) (v : Move) (qs : List Query) (id : NodeId)
    → (query (queries (handle_move m v).0 qs) v.key id).1
      ≡ next (or_zero (m.ballots (zone v.to))) v.to
unfolding handle_move
move_holds m v qs id =
    let b = next (or_zero (m.ballots (zone v.to))) v.to in
    let moved : Assigned (handle_move m v).0 v.key (zone v.to) b = record {
      zoned = rw (==_self v.key) refl;
      led = rw (==_self (zone v.to)) refl;
    } in
    query-Assigned (queries (handle_move m v).0 qs) v.key (zone v.to) b id
      (queries-Assigned (handle_move m v).0 v.key (zone v.to) b qs moved)
