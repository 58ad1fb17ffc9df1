-- ===== src/Quorum.antt =====
-- quorum.go: the acknowledgements of one round, and the tests for the kinds of quorum.
pub mod Valid
pub mod Intersect
pub mod Grid
use paxi.Common.{
  ℕ, zero, suc, ◌+◌, ◌-◌, ◌*◌, ◌/◌, Bool, true, false, not, Option, none, some, List, [], ◌∷◌, ltb,
  leb, ◌==◌, if◌then◌else◌, length, Tally, at, bump, keys, put_id,
}
use paxi.Id.{NodeId, zone}
use paxi.Config.{Config}

-- `acks` and `nacks` are only read and written by key. `nacks` is none while the Go map is nil.
pub record Quorum : Type 0 where
  pub size : ℕ
  pub acks : NodeId → Bool
  pub zones : Tally
  pub nacks : Option (NodeId → Bool)

abbrev pub nobody : NodeId → Bool
nobody id = false

-- NewQuorum leaves the map `nacks` nil.
abbrev pub new_quorum : Quorum
new_quorum = record { size = 0; acks = nobody; zones = []; nacks = none }

unfoldable pub ack : Quorum → NodeId → Quorum
ack q id =
    if not (q.acks id)
    then record q {
      acks = put_id q.acks id true;
      size = suc q.size;
      zones = bump q.zones (zone id);
    }
    else q

-- none is the panic of a write to a nil map, which reads as empty.
unfoldable pub nack : Quorum → NodeId → Option Quorum
nack q id = elim q.nacks [
  | none ↦ none
  | some nacks ↦
      if not (nacks id) then some (record q { nacks = some (put_id nacks id true) }) else some q
]

-- Quorum.ADD
unfoldable pub add : Quorum → Quorum
add q = record q { size = suc q.size }

unfoldable pub reset : Quorum → Quorum
reset q = record { size = 0; acks = nobody; zones = []; nacks = some nobody }

module _ (config : Config) where
  unfoldable pub majority : Quorum → Bool
  majority q = ltb (config.n / 2) q.size

  unfoldable pub fast_quorum : Quorum → Bool
  fast_quorum q = leb (config.n * 3 / 4) q.size

  unfoldable pub all_zones : Quorum → Bool
  all_zones q = length (keys q.zones) == config.z

  -- `for z, n := range q.zones { if n > config.npz[z]/2 { return true } }`
  pub some_majority : Tally → Bool
  some_majority [] = false
  some_majority ((z, n) ∷ m) = if ltb (at config.npz z / 2) n then true else some_majority m

  unfoldable pub zone_majority : Quorum → Bool
  unfolding some_majority
  zone_majority q = some_majority q.zones

  unfoldable pub grid_row : Quorum → Bool
  unfolding all_zones
  grid_row q = all_zones q

  -- `for z, n := range q.zones { if n == config.npz[z] { return true } }`
  pub some_full : Tally → Bool
  some_full [] = false
  some_full ((z, n) ∷ m) = if n == at config.npz z then true else some_full m

  unfoldable pub grid_column : Quorum → Bool
  unfolding some_full
  grid_column q = some_full q.zones

  -- `zone := 0; for z, n := range q.zones { if n > config.npz[z]/2 { zone++ } }`
  pub majority_zones : Tally → ℕ
  majority_zones [] = 0
  majority_zones ((z, n) ∷ m) = (if ltb (at config.npz z / 2) n then 1 else 0) + majority_zones m

  -- `config.z-Fz` below zero is a bound that every count meets, as 0 is.
  unfoldable pub fgrid_q1 : ℕ → Quorum → Bool
  unfolding majority_zones
  fgrid_q1 fz q = leb (config.z - fz) (majority_zones q.zones)

  unfoldable pub fgrid_q2 : ℕ → Quorum → Bool
  unfolding majority_zones
  fgrid_q2 fz q = leb (fz + 1) (majority_zones q.zones)
