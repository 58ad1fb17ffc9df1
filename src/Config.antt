-- ===== src/Config.antt =====
-- config.go: the counts that Load derives from the address book, which the quorum tests read.
use paxi.Common.{
  ℕ, suc, ◌+◌, ◌≡◌, refl, inl, inr, Bool, List, [], ◌∷◌, ◌==◌, length, count, In, Distinct, Tally,
  at, bump, keys, at-bump, ◌∙◌, bump-In-keys, Distinct-keys-bump, arith,
}
use paxi.Id.{NodeId, zone}

pub record Config : Type 0 where
  pub n : ℕ  -- total number of nodes
  pub z : ℕ  -- total number of zones
  pub npz : Tally  -- nodes per zone

-- `for id := range c.Addrs { c.n++; c.npz[id.Zone()]++ }`
pub count_nodes : List NodeId → ℕ → Tally → ℕ × Tally
count_nodes [] n npz = (n, npz)
count_nodes (id ∷ ids) n npz = count_nodes ids (suc n) (bump npz (zone id))

-- Config.Load behind the decoding of the file, over the keys of its address book. The fields start
-- at zero, as in MakeDefaultConfig.
unfoldable pub load : List NodeId → Config
unfolding count_nodes
load addrs =
    let (n, npz) = count_nodes addrs 0 [] in record { n = n; z = length (keys npz); npz = npz }

-- The nodes of one zone.
abbrev pub in_zone : ℕ → NodeId → Bool
in_zone z id = zone id == z

count_nodes-n : (ids : List NodeId) (n : ℕ) (m : Tally) → (count_nodes ids n m).0 ≡ n + length ids
unfolding count_nodes
count_nodes-n [] n m = omega arith
count_nodes-n (id ∷ ids) n m = omega (arith, count_nodes-n ids (suc n) (bump m (zone id)))

count_nodes-at :
    (ids : List NodeId) (n : ℕ) (m : Tally) (z : ℕ)
    → at (count_nodes ids n m).1 z ≡ at m z + count (in_zone z) ids
unfolding count_nodes
count_nodes-at [] n m z = omega arith
count_nodes-at (id ∷ ids) n m z =
    ground (arith, count_nodes-at ids (suc n) (bump m (zone id)) z, at-bump m (zone id) z)

count_nodes-Distinct :
    (ids : List NodeId) (n : ℕ) (m : Tally)
    → Distinct (keys m)
    → Distinct (keys (count_nodes ids n m).1)
unfolding count_nodes
count_nodes-Distinct [] n m d = d
count_nodes-Distinct (id ∷ ids) n m d =
    count_nodes-Distinct ids (suc n) (bump m (zone id)) (Distinct-keys-bump m (zone id) d)

count_nodes-keeps :
    (ids : List NodeId) (n : ℕ) (m : Tally) (z : ℕ)
    → In z (keys m)
    → In z (keys (count_nodes ids n m).1)
unfolding count_nodes
count_nodes-keeps [] n m z i = i
count_nodes-keeps (id ∷ ids) n m z i =
    count_nodes-keeps ids (suc n) (bump m (zone id)) z (bump-In-keys m (zone id) z (inr i))

count_nodes-zones :
    (ids : List NodeId) (n : ℕ) (m : Tally) (id : NodeId)
    → In id ids
    → In (zone id) (keys (count_nodes ids n m).1)
unfolding count_nodes
count_nodes-zones [] n m id i = absurd i
count_nodes-zones (j ∷ ids) n m id (inl e) =
    count_nodes-keeps ids (suc n) (bump m (zone j)) (zone id)
      (bump-In-keys m (zone j) (zone id) (inl (λ t. zone (e t))))
count_nodes-zones (j ∷ ids) n m id (inr i) = count_nodes-zones ids (suc n) (bump m (zone j)) id i

-- Load counts the nodes, the nodes of every zone and the zones, each zone that has a node once.
pub load_counts :
    (addrs : List NodeId)
    → ((load addrs).n ≡ length addrs)
      × ((z : ℕ) → at (load addrs).npz z ≡ count (in_zone z) addrs)
      × ((load addrs).z ≡ length (keys (load addrs).npz))
      × Distinct (keys (load addrs).npz)
      × ((id : NodeId) → In id addrs → In (zone id) (keys (load addrs).npz))
unfolding load at
load_counts addrs = (
  count_nodes-n addrs 0 [] ∙ (omega arith),
  λ z. count_nodes-at addrs 0 [] z ∙ (omega arith),
  refl,
  count_nodes-Distinct addrs 0 [] tt,
  count_nodes-zones addrs 0 [],
)
