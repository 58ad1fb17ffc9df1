-- ===== src/Quorum/Grid.antt =====
-- quorum.go: the rows and columns of a grid quorum, and the majorities of a zone.
use paxi.Common.{
  ℕ, ◌/◌, ◌<◌, ◌≡◌, refl, sym, ◌∙◌, inl, inr, Bool, true, not, ◌&&◌, List, [], ◌∷◌, ltb, ◌==◌,
  ==→eq, Bool-cases, length, count, count_pos, count-eq_length, count_lt_length, count_mono, In,
  Distinct, Tally, at, keys, arith, subst,
}
use native.Mathlib.Decide.{dec_lt}
use paxi.Id.{NodeId, zone}
use paxi.Config.{Config, load, load_counts, in_zone}
use paxi.Quorum.{Quorum, grid_row, grid_column, some_full, some_majority, zone_majority}
use paxi.Quorum.Valid.{IsValid}
use paxi.Quorum.Intersect.{at_fresh, zones_known, share_zone_member}

-- A list with no repetition inside another of the same length has all its elements.
same_length_covers :
    (xs ys : List ℕ)
    → Distinct xs
    → Distinct ys
    → ((x : ℕ) → In x xs → In x ys)
    → length xs ≡ length ys
    → (y : ℕ) → In y ys
    → (In y xs → ⊥)
    → ⊥
same_length_covers xs ys dx dy sub same y i missing =
    let other : ℕ → Bool = λ x. not (x == y) in
    let all_xs : count other xs ≡ length xs = count-eq_length other xs (λ x j.
      elim (Bool-cases (x == y)) [
        | inl e ↦ absurd (missing (subst (λ k. In k xs) (==→eq x y e) j))
        | inr e ↦ rw e
      ]) in
    let not_all : count other ys < length ys = count_lt_length other y ys i (ground arith) in
    let fewer = count_mono ◌==◌ (λ a b. ground arith) other xs ys dx dy sub in omega arith

-- The loop of GridColumn finds a key whose count is that of the zone.
some_full-found :
    (config : Config) (m : Tally)
    → Distinct (keys m)
    → some_full config m ≡ true
    → (z : ℕ) × In z (keys m) × (at m z ≡ at config.npz z)
unfolding some_full
some_full-found config [] d h = cc
some_full-found config ((j, n) ∷ m) (fresh, d) h = elim (Bool-cases (n == at config.npz j)) [
  | inl e ↦ (j, inl refl, unfold at in ground arith)
  | inr e ↦
      let (z, i, full) = some_full-found config m d (rw e at h) in
      (z, inr i, at_fresh j n m z fresh i ∙ full)
]

-- The loop of ZoneMajority finds a zone more than half of which has acknowledged.
some_majority-found :
    (config : Config) (m : Tally)
    → Distinct (keys m)
    → some_majority config m ≡ true
    → (z : ℕ) × In z (keys m) × (at config.npz z / 2 < at m z)
unfolding some_majority
some_majority-found config [] d h = cc
some_majority-found config ((j, n) ∷ m) (fresh, d) h =
    elim (Bool-cases (ltb (at config.npz j / 2) n)) [
      | inl e ↦ (j, inl refl, unfold at in ground arith)
      | inr e ↦
          let (z, i, more) = some_majority-found config m d (rw e at h) in
          (z, inr i, rw (at_fresh j n m z fresh i) more)
    ]

-- A row of the grid, one acknowledgement from every zone, and a column, all nodes of one zone, have
-- a member in common.
pub grid_intersect :
    (members : List NodeId)
    → Distinct members
    → (q r : Quorum) → IsValid members q
    → IsValid members r
    → grid_row (load members) q ≡ true
    → grid_column (load members) r ≡ true
    → (id : NodeId) × In id members × (q.acks id ≡ true) × (r.acks id ≡ true)
unfolding grid_row grid_column
grid_intersect members distinct q r v w hq hr =
    let config = load members in
    let (z, i, full) = some_full-found config r.zones w.keyed hr in
    let z_known = zones_known members distinct w z i in
    let counts = load_counts members in
    share_zone_member members distinct v w z (elim (dec_lt 0 (at q.zones z)) [
      | yes some_ack ↦ omega (arith, full)
      | no none_ack ↦ absurd (
          same_length_covers (keys q.zones) (keys config.npz) v.keyed counts.3
            (zones_known members distinct v) (ground (arith, counts.2)) z z_known
            (λ j. none_ack (v.positive z j)))
    ])

-- The zone of a key of a quorum whose acknowledgements all come from one zone.
only_zone :
    (members : List NodeId) {q : Quorum}
    → IsValid members q
    → (only : ℕ) → ((id : NodeId) → q.acks id ≡ true → zone id ≡ only)
    → (z : ℕ) → In z (keys q.zones)
    → z ≡ only
only_zone members {q} v only one z i =
    let (id, member, acked) =
      count_pos (λ id. q.acks id && in_zone z id) members
        (omega (arith, v.positive z i, v.zoned z)) in
    let there : zone id ≡ z = ==→eq (zone id) z (ground arith) in sym there ∙ one id (ground arith)

-- Two zone majorities whose acknowledgements come from the same zone, as those of the protocols that
-- multicast in the leader's zone do, have a member in common.
pub zone_majority_intersect :
    (members : List NodeId)
    → Distinct members
    → (q r : Quorum) → IsValid members q
    → IsValid members r
    → (only : ℕ) → ((id : NodeId) → q.acks id ≡ true → zone id ≡ only)
    → ((id : NodeId) → r.acks id ≡ true → zone id ≡ only)
    → zone_majority (load members) q ≡ true
    → zone_majority (load members) r ≡ true
    → (id : NodeId) × In id members × (q.acks id ≡ true) × (r.acks id ≡ true)
unfolding zone_majority
zone_majority_intersect members distinct q r v w only one_q one_r hq hr =
    let config = load members in
    let (z, i, more_q) = some_majority-found config q.zones v.keyed hq in
    let (y, j, more_r) = some_majority-found config r.zones w.keyed hr in
    let same : z ≡ y =
      only_zone members v only one_q z i ∙ sym (only_zone members w only one_r y j) in
    let more_r' : at config.npz z / 2 < at r.zones z =
      subst (λ k. at config.npz k / 2 < at r.zones k) (sym same) more_r in
    share_zone_member members distinct v w z (omega arith)
