-- ===== src/Tests/Nodes.antt =====
-- A system of four nodes in two zones.
use paxi.Common.{at, bump, bytes_eq, List, [], ◌∷◌, Distinct, inl, inr, arith, refl}
use paxi.Id.{NodeId, zone}
use paxi.Config.{load}
use paxi.Id.Strconv.{contains, split_at, parse_uint}
use paxi.Quorum.{
  Quorum, new_quorum, ack, reset, majority, fast_quorum, all_zones, grid_row, grid_column,
  zone_majority, fgrid_q1, fgrid_q2,
}
use paxi.Quorum.Valid.{IsValid, ack-IsValid, new_quorum-IsValid}

-- To unfold this is to unfold all that an evaluation of quorums goes through.
unfoldable pub quorums_run : Unit {0}
unfolding zone contains split_at parse_uint bytes_eq at bump load ack reset majority fast_quorum
    all_zones grid_row grid_column zone_majority fgrid_q1 fgrid_q2
quorums_run = tt

abbrev pub n11 : NodeId
n11 = b'1' ∷ b'.' ∷ b'1' ∷ []

abbrev pub n12 : NodeId
n12 = b'1' ∷ b'.' ∷ b'2' ∷ []

abbrev pub n21 : NodeId
n21 = b'2' ∷ b'.' ∷ b'1' ∷ []

abbrev pub n22 : NodeId
n22 = b'2' ∷ b'.' ∷ b'2' ∷ []

abbrev pub nodes : List NodeId
nodes = n11 ∷ n12 ∷ n21 ∷ n22 ∷ []

pub nodes-Distinct : Distinct nodes
nodes-Distinct = ground arith

-- Three acknowledgements: both nodes of zone 1, one of zone 2.
abbrev pub three : Quorum
three = ack (ack (ack new_quorum n11) n12) n21

pub three-IsValid : IsValid nodes three
three-IsValid =
    ack-IsValid nodes-Distinct
      (ack-IsValid nodes-Distinct
        (ack-IsValid nodes-Distinct (new_quorum-IsValid nodes) n11 (inl refl)) n12 (inr (inl refl)))
      n21 (inr (inr (inl refl)))

-- All four.
abbrev pub four : Quorum
four = ack three n22

pub four-IsValid : IsValid nodes four
four-IsValid = ack-IsValid nodes-Distinct three-IsValid n22 (inr (inr (inr (inl refl))))

-- Both nodes of zone 1.
abbrev pub zone_one : Quorum
zone_one = ack (ack new_quorum n11) n12

pub zone_one-IsValid : IsValid nodes zone_one
zone_one-IsValid =
    ack-IsValid nodes-Distinct
      (ack-IsValid nodes-Distinct (new_quorum-IsValid nodes) n11 (inl refl)) n12 (inr (inl refl))
