-- ===== src/Tests/QuorumTests.antt =====
-- Quorums at work in a system of four nodes.
use paxi.Common.{
  ◌≡◌, refl, true, false, none, some, [], In, inl, inr, arith, bytes_eq, bytes_eq_iff, Bool-cases,
  sym, ap, ◌∙◌, List, ◌∷◌, Bool, ◌&&◌,
}
use mathlib.Core.List.{map}
use paxi.Id.{NodeId, zone}
use paxi.Config.{load}
use paxi.Quorum.{Quorum, new_quorum, ack, nack, reset, nobody, majority, fast_quorum, fgrid_q2}
use paxi.Quorum.Valid.{IsValid, Rejects, ack-IsValid, ack_all, nack_lem, acks-ack}
use paxi.Quorum.Intersect.{majority_intersect, fgrid_intersect, fast_quorum_intersect}
use paxi.Quorum.Grid.{grid_intersect, zone_majority_intersect}
use paxi.Wpaxos.{q1, q2, wpaxos_intersect}
use paxi.Tests.Nodes.{
  quorums_run, n11, n12, n21, n22, nodes, nodes-Distinct, three, three-IsValid, four, four-IsValid,
  zone_one, zone_one-IsValid,
}

majority_intersect_example :
    (id : NodeId) × In id nodes × (three.acks id ≡ true) × (four.acks id ≡ true)
unfolding quorums_run
majority_intersect_example =
    majority_intersect nodes nodes-Distinct three four three-IsValid four-IsValid refl refl

-- With no tolerated zone failure, phase 1 needs a majority in both zones, phase 2 in one.
fgrid_intersect_example :
    (id : NodeId) × In id nodes × (four.acks id ≡ true) × (three.acks id ≡ true)
unfolding quorums_run
fgrid_intersect_example =
    fgrid_intersect nodes nodes-Distinct 0 four three four-IsValid three-IsValid refl refl

grid_intersect_example :
    (id : NodeId) × In id nodes × (three.acks id ≡ true) × (zone_one.acks id ≡ true)
unfolding quorums_run
grid_intersect_example =
    grid_intersect nodes nodes-Distinct three zone_one three-IsValid zone_one-IsValid refl refl

zone_one_only : (id : NodeId) → zone_one.acks id ≡ true → zone id ≡ 1
zone_one_only id h = elim (Bool-cases (bytes_eq n12 id)) [
  | inl e ↦ ap zone (sym ((bytes_eq_iff n12 id).0 e)) ∙ (unfold quorums_run in refl)
  | inr e ↦ elim (Bool-cases (bytes_eq n11 id)) [
    | inl f ↦ ap zone (sym ((bytes_eq_iff n11 id).0 f)) ∙ (unfold quorums_run in refl)
    | inr f ↦
        let first = acks-ack (ack new_quorum n11) n12 id in
        let second = acks-ack new_quorum n11 id in absurd (ground arith)
  ]
]

zone_majority_intersect_example :
    (id : NodeId) × In id nodes × (zone_one.acks id ≡ true) × (zone_one.acks id ≡ true)
unfolding quorums_run
zone_majority_intersect_example =
    zone_majority_intersect nodes nodes-Distinct zone_one zone_one zone_one-IsValid zone_one-IsValid
      1 zone_one_only zone_one_only refl refl

ack-IsValid_example : IsValid nodes (ack zone_one n22)
ack-IsValid_example = ack-IsValid nodes-Distinct zone_one-IsValid n22 (inr (inr (inr (inl refl))))

fast_quorum_intersect_example :
    (id : NodeId) × In id nodes
    × (three.acks id ≡ true)
    × (four.acks id ≡ true)
    × (three.acks id ≡ true)
unfolding quorums_run
fast_quorum_intersect_example =
    fast_quorum_intersect nodes nodes-Distinct 1 three four three refl three-IsValid four-IsValid
      three-IsValid refl refl refl

-- Of five nodes three are a fast quorum, and two of these and a majority have no node in common.
abbrev n31 : NodeId
n31 = b'3' ∷ b'.' ∷ b'1' ∷ []

abbrev five : List NodeId
five = n11 ∷ n12 ∷ n21 ∷ n22 ∷ n31 ∷ []

abbrev last_three : Quorum
last_three = ack (ack (ack new_quorum n21) n22) n31

abbrev others : Quorum
others = ack (ack (ack new_quorum n11) n12) n22

abbrev in_all_three : NodeId → Bool
in_all_three id = three.acks id && last_three.acks id && others.acks id

fast_of_five :
    (fast_quorum (load five) three ≡ true)
    × (fast_quorum (load five) last_three ≡ true)
    × (majority (load five) others ≡ true)
    × (map in_all_three five ≡ false ∷ false ∷ false ∷ false ∷ false ∷ [])
unfolding quorums_run
fast_of_five = (refl, refl, refl, refl)

nack_lem_example :
    (nack (ack_all new_quorum (n12 ∷ [])) n11 ≡ none)
    × ((q' : Quorum) × (nack (ack_all (reset three) (n12 ∷ [])) n11 ≡ some q')
        × Rejects (ack_all (reset three) (n12 ∷ [])) nobody n11 q')
    × ((q' : Quorum) × (nack (ack_all (reset (reset three)) (n12 ∷ [])) n11 ≡ some q')
        × Rejects (ack_all (reset (reset three)) (n12 ∷ [])) nobody n11 q')
unfolding reset
nack_lem_example = nack_lem (reset three) nobody n11 (n12 ∷ []) refl

-- Three acknowledgements are a majority of four nodes and of zone 1, but not of zone 2.
three_is : (majority (load nodes) three ≡ true) × (fgrid_q2 (load nodes) 1 three ≡ false)
unfolding quorums_run
three_is = (refl, refl)

wpaxos_intersect_example :
    (id : NodeId) × In id nodes × (three.acks id ≡ true) × (zone_one.acks id ≡ true)
unfolding quorums_run q1 q2
wpaxos_intersect_example =
    wpaxos_intersect nodes nodes-Distinct 0 three zone_one three-IsValid zone_one-IsValid refl refl
