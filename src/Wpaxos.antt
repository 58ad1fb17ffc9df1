-- ===== src/Wpaxos.antt =====
-- wpaxos/kpaxos.go: the quorums of WPaxos, which every key's Paxos is given as Q1 and Q2, for the
-- number of zone failures to tolerate that the flag -fz sets.
use paxi.Common.{ℕ, ◌==◌, ◌≡◌, Bool, true, List, In, Distinct, Bool-cases, inl, inr, if◌then◌else◌}
use paxi.Id.{NodeId}
use paxi.Config.{Config, load}
use paxi.Quorum.{Quorum, grid_row, grid_column, fgrid_q1, fgrid_q2}
use paxi.Quorum.Valid.{IsValid}
use paxi.Quorum.Intersect.{fgrid_intersect}
use paxi.Quorum.Grid.{grid_intersect}
pub mod Replica
pub mod Keys

unfoldable pub q1 : Config → ℕ → Quorum → Bool
q1 config fz q = if fz == 0 then grid_row config q else fgrid_q1 config fz q

unfoldable pub q2 : Config → ℕ → Quorum → Bool
q2 config fz q = if fz == 0 then grid_column config q else fgrid_q2 config fz q

-- Whatever number of zone failures the flag sets, a set of nodes that satisfies Q1 and one that
-- satisfies Q2 have a member in common.
pub wpaxos_intersect :
    (members : List NodeId)
    → Distinct members
    → (fz : ℕ) (q r : Quorum) → IsValid members q
    → IsValid members r
    → q1 (load members) fz q ≡ true
    → q2 (load members) fz r ≡ true
    → (id : NodeId) × In id members × (q.acks id ≡ true) × (r.acks id ≡ true)
unfolding q1 q2
wpaxos_intersect members distinct fz q r v w hq hr = elim (Bool-cases (fz == 0)) [
  | inl e ↦ grid_intersect members distinct q r v w (rw e at hq) (rw e at hr)
  | inr e ↦ fgrid_intersect members distinct fz q r v w (rw e at hq) (rw e at hr)
]
