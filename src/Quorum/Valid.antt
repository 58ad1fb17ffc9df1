-- ===== src/Quorum/Valid.antt =====
-- quorum.go: what the counters of a quorum count, and the operations NewQuorum, Reset, ACK and
-- NACK.
use paxi.Common.{
  ℕ, suc, ◌<◌, ◌≡◌, refl, sym, ap, ◌∙◌, inl, inr, Bool, true, false, ◌&&◌, none, some, List, [],
  ◌∷◌, if◌then◌else◌, Bool-cases, bytes_eq, bytes_eq_iff, count, count-ext, count-assign, In,
  Distinct, at, bump, keys, at-bump, put_id, In-keys-bump, Distinct-keys-bump, arith,
}
use paxi.Id.{NodeId, zone}
use paxi.Config.{in_zone}
use paxi.Quorum.{Quorum, nobody, new_quorum, ack, nack, reset}

-- In a system with these members: only members have acknowledged, `size` counts them, and `zones`
-- counts those of each zone, with a key for exactly the zones that have one.
pub record IsValid (members : List NodeId) (q : Quorum) : Type 0 where
  pub sized : q.size ≡ count q.acks members
  pub zoned : (z : ℕ) → at q.zones z ≡ count (λ id. q.acks id && in_zone z id) members
  pub keyed : Distinct (keys q.zones)
  pub positive : (z : ℕ) → In z (keys q.zones) → 0 < at q.zones z

count-nobody : (r : NodeId → Bool) (ids : List NodeId) → count (λ id. nobody id && r id) ids ≡ 0
count-nobody r [] = refl
count-nobody r (id ∷ ids) = omega (arith, count-nobody r ids)

count-nobody_all : (ids : List NodeId) → count nobody ids ≡ 0
count-nobody_all [] = refl
count-nobody_all (id ∷ ids) = omega (arith, count-nobody_all ids)

pub new_quorum-IsValid : (members : List NodeId) → IsValid members new_quorum
unfolding at
new_quorum-IsValid members = record {
  sized = sym (count-nobody_all members);
  zoned = λ z. sym (count-nobody (in_zone z) members);
  keyed = tt;
  positive = λ z i. absurd i;
}

pub reset-IsValid : (members : List NodeId) (q : Quorum) → IsValid members (reset q)
unfolding reset at
reset-IsValid members q = record {
  sized = sym (count-nobody_all members);
  zoned = λ z. sym (count-nobody (in_zone z) members);
  keyed = tt;
  positive = λ z i. absurd i;
}

module _ {members : List NodeId} (distinct : Distinct members) {q : Quorum}
    (v : IsValid members q) where
  module _ (id : NodeId) (member : In id members) (fresh : q.acks id ≡ false) where
    ack-sized : suc q.size ≡ count (put_id q.acks id true) members
    ack-sized =
        let moved = count-assign bytes_eq bytes_eq_iff q.acks id true members distinct member in
        let before = v.sized in ground arith

    -- The acknowledged nodes of zone `z`, with `id` added if it is one of them.
    ack-zoned :
        (z : ℕ)
        → at (bump q.zones (zone id)) z
          ≡ count (λ j. put_id q.acks id true j && in_zone z j) members
    ack-zoned z =
        let p : NodeId → Bool = λ j. q.acks j && in_zone z j in
        let moved =
          count-assign bytes_eq bytes_eq_iff p id (in_zone z id) members distinct member in
        let same : count (λ j. put_id q.acks id true j && in_zone z j) members
            ≡ count (λ j. if bytes_eq id j then in_zone z id else p j) members =
          count-ext _ _ members (λ j i. elim (Bool-cases (bytes_eq id j)) [
            | inl e ↦ rw e (ap (in_zone z) (sym ((bytes_eq_iff id j).0 e)))
            | inr e ↦ rw e
          ]) in
        let before = v.zoned z in let bumped = at-bump q.zones (zone id) z in ground arith

    ack_positive :
        (z : ℕ) → In z (keys (bump q.zones (zone id))) → 0 < at (bump q.zones (zone id)) z
    ack_positive z i =
        ground (arith, at-bump q.zones (zone id) z, In-keys-bump q.zones (zone id) z, v.positive z)

    ack_fresh : IsValid members (record q {
      acks = put_id q.acks id true;
      size = suc q.size;
      zones = bump q.zones (zone id);
    })
    ack_fresh = record {
      sized = ack-sized;
      zoned = ack-zoned;
      keyed = Distinct-keys-bump q.zones (zone id) v.keyed;
      positive = ack_positive;
    }

  -- ACK by a member keeps the counters right, also when the member has acknowledged before.
  pub ack-IsValid : (id : NodeId) → In id members → IsValid members (ack q id)
  unfolding ack
  ack-IsValid id member = elim (Bool-cases (q.acks id)) [
    | inl old ↦ rw old v
    | inr new ↦ rw new (ack_fresh id member new)
  ]

-- The set of those who acknowledged, after one more: ACK adds exactly its node.
pub acks-ack :
    (q : Quorum) (id j : NodeId) → (ack q id).acks j ≡ (if bytes_eq id j then true else q.acks j)
unfolding ack
acks-ack q id j = elim (Bool-cases (q.acks id)) [
  | inl old ↦ elim (Bool-cases (bytes_eq id j)) [
    | inl e ↦ rw (old, e, ← (bytes_eq_iff id j).0 e) old
    | inr e ↦ rw (old, e)
  ]
  | inr new ↦ rw new
]

-- ACK is idempotent: a repeated message changes nothing.
pub ack_idempotent : (q : Quorum) (id : NodeId) → ack (ack q id) id ≡ ack q id
unfolding ack
ack_idempotent q id = elim (Bool-cases (q.acks id)) [
  | inl old ↦ rw (old, old)
  | inr new ↦ rw new (rw ((bytes_eq_iff id id).1 refl))
]

-- What NACK makes of a quorum whose map of rejections is `nacks`.
pub record Rejects (q : Quorum) (nacks : NodeId → Bool) (id : NodeId) (q' : Quorum) : Type 0 where
  pub same_acks : q'.acks ≡ q.acks
  pub same_size : q'.size ≡ q.size
  pub same_zones : q'.zones ≡ q.zones
  pub recorded :
      (nacks' : NodeId → Bool) × (q'.nacks ≡ some nacks')
      × ((j : NodeId) → nacks' j ≡ (if bytes_eq id j then true else nacks j))

nack-Rejects :
    (q : Quorum) (nacks : NodeId → Bool) (id : NodeId)
    → q.nacks ≡ some nacks
    → (q' : Quorum) × (nack q id ≡ some q') × Rejects q nacks id q'
unfolding nack
nack-Rejects q nacks id there = elim (Bool-cases (nacks id)) [
  | inl old ↦ (
    q,
    ground (arith, there, old),
    record {
      same_acks = refl;
      same_size = refl;
      same_zones = refl;
      recorded = (
        nacks,
        there,
        λ j. elim (Bool-cases (bytes_eq id j)) [
          | inl e ↦ rw (e, ← (bytes_eq_iff id j).0 e) old
          | inr e ↦ rw e refl
        ],
      );
    },
  )
  | inr new ↦ (
    record q { nacks = some (put_id nacks id true) },
    ground (arith, there, new),
    record {
      same_acks = refl;
      same_size = refl;
      same_zones = refl;
      recorded = (put_id nacks id true, refl, λ j. refl);
    },
  )
]

-- Acknowledgements in their order.
abbrev pub ack_all : Quorum → List NodeId → Quorum
ack_all q [] = q
ack_all q (id ∷ ids) = ack_all (ack q id) ids

ack-nacks : (q : Quorum) (id : NodeId) → (ack q id).nacks ≡ q.nacks
unfolding ack
ack-nacks q id = elim (Bool-cases (q.acks id)) [ inl old ↦ rw old refl | inr new ↦ rw new refl ]

ack_all-nacks : (q : Quorum) (ids : List NodeId) → (ack_all q ids).nacks ≡ q.nacks
ack_all-nacks q [] = refl
ack_all-nacks q (id ∷ ids) = ack_all-nacks (ack q id) ids ∙ ack-nacks q id

-- NACK after any acknowledgements: on a quorum that NewQuorum made it panics. On one with a map of
-- rejections, as every quorum has after a Reset, it does not panic: it records its node among those that rejected, changes
-- the record of no other node, and leaves the acknowledgements and their counts alone.
pub nack_lem :
    (q : Quorum) (nacks : NodeId → Bool) (id : NodeId) (ids : List NodeId)
    → q.nacks ≡ some nacks
    → (nack (ack_all new_quorum ids) id ≡ none)
      × ((q' : Quorum) × (nack (ack_all q ids) id ≡ some q') × Rejects (ack_all q ids) nacks id q')
      × ((q' : Quorum) × (nack (ack_all (reset q) ids) id ≡ some q')
          × Rejects (ack_all (reset q) ids) nobody id q')
unfolding reset nack
nack_lem q nacks id ids there = (
  rw (nack, ack_all-nacks new_quorum ids) refl,
  nack-Rejects (ack_all q ids) nacks id (ack_all-nacks q ids ∙ there),
  nack-Rejects (ack_all (reset q) ids) nobody id (ack_all-nacks (reset q) ids),
)
