-- ===== src/Quorum/Intersect.antt =====
-- quorum.go: the nodes that quorums share. The counts of the configuration are those that
-- Config.Load derives from the members.
use paxi.Common.{
  ℕ, ◌+◌, ◌*◌, ◌/◌, ◌<◌, ◌≤◌, ◌≡◌, refl, sym, inl, inr, Bool, true, ◌&&◌, List, [], ◌∷◌, ltb, ◌==◌,
  ==→eq, Bool-cases, count, count-ext, count_overlap, count_overlap_all, count_both, count_pos,
  count_mono, In, Distinct, Tally, at, keys, arith, subst,
}
use paxi.Id.{NodeId, zone}
use paxi.Config.{Config, load, load_counts, in_zone}
use paxi.Quorum.{Quorum, majority, fast_quorum, majority_zones, fgrid_q1, fgrid_q2}
use paxi.Quorum.Valid.{IsValid}

-- A zone in which more than half of the nodes have acknowledged.
abbrev has_majority : Tally → Tally → ℕ → Bool
has_majority npz m z = ltb (at npz z / 2) (at m z)

pub at_fresh :
    (j n : ℕ) (m : Tally) (z : ℕ) → (In j (keys m) → ⊥) → In z (keys m) → at ((j, n) ∷ m) z ≡ at m z
unfolding at
at_fresh j n m z fresh i = elim (Bool-cases (j == z)) [
  | inl e ↦ absurd (fresh (subst (λ k. In k (keys m)) (sym (==→eq j z e)) i))
  | inr e ↦ rw e
]

-- The loop over a map counts the keys that pass its test.
majority_zones-count :
    (config : Config) (m : Tally)
    → Distinct (keys m)
    → majority_zones config m ≡ count (has_majority config.npz m) (keys m)
unfolding majority_zones
majority_zones-count config [] d = refl
majority_zones-count config ((j, n) ∷ m) (fresh, d) =
    let tail = majority_zones-count config m d in
    let same : count (has_majority config.npz ((j, n) ∷ m)) (keys m)
        ≡ count (has_majority config.npz m) (keys m) =
      count-ext _ _ (keys m) (λ z i. rw (at_fresh j n m z fresh i)) in
    let head : at ((j, n) ∷ m) j ≡ n = unfold at in ground arith in ground arith

module _ (members : List NodeId) (distinct : Distinct members) where
  abbrev pub config : Config
  config = load members

  -- A zone of the map is a zone of the configuration.
  pub zones_known :
      {q : Quorum} → IsValid members q → (z : ℕ) → In z (keys q.zones) → In z (keys config.npz)
  zones_known {q} v z i =
      let (id, member, yes') =
        count_pos (λ id. q.acks id && in_zone z id) members
          (omega (arith, v.positive z i, v.zoned z)) in
      let e : zone id ≡ z = ==→eq (zone id) z (ground arith) in
      subst (λ k. In k (keys config.npz)) e ((load_counts members).4 id member)

  -- Two groups that together outnumber a zone share a node of it.
  pub share_zone_member :
      {q r : Quorum}
      → IsValid members q
      → IsValid members r
      → (z : ℕ) → at config.npz z < at q.zones z + at r.zones z
      → (id : NodeId) × In id members × (q.acks id ≡ true) × (r.acks id ≡ true)
  share_zone_member {q} {r} v w z h =
      let found =
        count_overlap q.acks r.acks (in_zone z) members
          (omega (arith, v.zoned z, w.zoned z, (load_counts members).1 z)) in
      (found.0, found.1, found.2, found.3)

  majority_zones-le :
      {q : Quorum}
      → IsValid members q
      → majority_zones config q.zones ≤ count (has_majority config.npz q.zones) (keys config.npz)
  majority_zones-le {q} v = rw (majority_zones-count config q.zones v.keyed) (
      count_mono ◌==◌ (λ a b. ground arith) (has_majority config.npz q.zones) (keys q.zones)
        (keys config.npz) v.keyed (load_counts members).3 (zones_known v))

-- Two majorities of the same members have a member in common.
pub majority_intersect :
    (members : List NodeId)
    → Distinct members
    → (q r : Quorum) → IsValid members q
    → IsValid members r
    → majority (load members) q ≡ true
    → majority (load members) r ≡ true
    → (id : NodeId) × In id members × (q.acks id ≡ true) × (r.acks id ≡ true)
unfolding majority
majority_intersect members distinct q r v w hq hr =
    count_overlap_all q.acks r.acks members
      (ground (arith, v.sized, w.sized, (load_counts members).0))

-- A phase-1 and a phase-2 quorum of the flexible grid, for the same number of zone failures, have a
-- member in common.
pub fgrid_intersect :
    (members : List NodeId)
    → Distinct members
    → (fz : ℕ) (q r : Quorum) → IsValid members q
    → IsValid members r
    → fgrid_q1 (load members) fz q ≡ true
    → fgrid_q2 (load members) fz r ≡ true
    → (id : NodeId) × In id members × (q.acks id ≡ true) × (r.acks id ≡ true)
unfolding fgrid_q1 fgrid_q2
fgrid_intersect members distinct fz q r v w hq hr =
    let npz = (load members).npz in
    let bound_q = majority_zones-le members distinct v in
    let bound_r = majority_zones-le members distinct w in
    let zones = (load_counts members).2 in
    let shared =
      count_overlap_all (has_majority npz q.zones) (has_majority npz r.zones) (keys npz)
        (ground arith) in
    share_zone_member members distinct v w shared.0 (ground (arith, shared.2, shared.3))

-- Two fast quorums and a majority of the same members, whose number is divisible by 4, have a member
-- in common, which is what Fast Paxos asks of its quorums.
pub fast_quorum_intersect :
    (members : List NodeId)
    → Distinct members
    → (f : ℕ) (q r s : Quorum) → (load members).n ≡ 4 * f
    → IsValid members q
    → IsValid members r
    → IsValid members s
    → fast_quorum (load members) q ≡ true
    → fast_quorum (load members) r ≡ true
    → majority (load members) s ≡ true
    → (id : NodeId) × In id members × (q.acks id ≡ true) × (r.acks id ≡ true) × (s.acks id ≡ true)
unfolding fast_quorum majority
fast_quorum_intersect members distinct f q r s by_four v w x hq hr hs =
    let all = (load_counts members).0 in
    let both = count_both q.acks r.acks members in
    let shared =
      count_overlap_all (λ id. q.acks id && r.acks id) s.acks members
        (ground (arith, v.sized, w.sized, x.sized, all, both)) in
    let here = shared.2 in
    (shared.0, shared.1, ground (arith, here), ground (arith, here), shared.3)
