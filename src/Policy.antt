-- ===== src/Policy.antt =====
-- policy.go: when the accesses to a key ask for its migration. The ema policy computes with floating
-- point numbers and is left out; of the clock the majority policy only reads whether its interval is
-- over, which is an argument here.
use paxi.Common.{
  ℕ, suc, ◌+◌, ◌/◌, Bool, true, false, ◌&&◌, Option, none, some, List, [], ◌∷◌, Bytes, bytes_eq,
  ltb, leb, if◌then◌else◌,
}
use paxi.Id.{NodeId}
pub mod Streak

-- type Policy, as the replicas use it: its state, that of NewPolicy, and Hit.
pub record Policy : Type 1 where
  pub State : Type 0
  pub fresh : State
  pub hit : State → NodeId → State × NodeId

-- type consecutive; the threshold is not negative.
pub record Consecutive : Type 0 where
  pub last : NodeId
  pub hits : ℕ
  pub n : ℕ

-- The case "consecutive" of NewPolicy.
unfoldable pub new_consecutive : ℕ → Consecutive
new_consecutive threshold = record { last = []; hits = 0; n = threshold }

-- The count of a hit, before the test.
unfoldable pub count_hit : Consecutive → NodeId → Consecutive
count_hit c id =
    if bytes_eq id c.last then record c { hits = suc c.hits } else record c { last = id; hits = 1 }

-- consecutive.Hit, with the identifier that it returns.
unfoldable pub hit_consecutive : Consecutive → NodeId → Consecutive × NodeId
unfolding count_hit
hit_consecutive c id =
    let c' = count_hit c id in
    if leb c'.n c'.hits then (record c' { last = []; hits = 0 }, c'.last) else (c', [])

-- A `map[ID]int` that counts, in the order of an iteration.
abbrev pub Hits : Type 0
Hits = List (NodeId × ℕ)

-- `m.hits[id]++`
unfoldable pub bump_hits : Hits → NodeId → Hits
bump_hits [] id = (id, 1) ∷ []
bump_hits ((i, n) ∷ m) id = if bytes_eq i id then (i, suc n) ∷ m else (i, n) ∷ bump_hits m id

-- type majority, less its clock.
pub record Majority : Type 0 where
  pub hits : Hits
  pub sum : ℕ

-- The case "majority" of NewPolicy.
abbrev pub new_majority : Majority
new_majority = record { hits = []; sum = 0 }

-- `for id, n := range m.hits { if n >= m.sum/2 { res = id } }`
unfoldable pub most_hits : ℕ → Hits → NodeId → NodeId
most_hits sum [] res = res
most_hits sum ((i, n) ∷ m) res = most_hits sum m (if leb (sum / 2) n then i else res)

abbrev pub clear_hits : Hits → Hits
clear_hits [] = []
clear_hits ((i, n) ∷ m) = (i, 0) ∷ clear_hits m

-- majority.reset
unfoldable pub reset_majority : Majority → Majority
reset_majority m = record { hits = clear_hits m.hits; sum = 0 }

-- majority.Hit, when the interval is over or not.
unfoldable pub hit_majority : Bool → Majority → NodeId → Majority × NodeId
unfolding bump_hits most_hits reset_majority
hit_majority over m id =
    let m' : Majority = record { hits = bump_hits m.hits id; sum = suc m.sum } in
    if ltb 1 m'.sum && over then (reset_majority m', most_hits m'.sum m'.hits []) else (m', [])

-- null.Hit
abbrev pub hit_null : NodeId → NodeId
hit_null id = []

-- The last result of a sequence of hits and the state after it.
unfoldable pub hit_all : Consecutive → List NodeId → Consecutive × List NodeId
unfolding hit_consecutive
hit_all c [] = (c, [])
hit_all c (id ∷ ids) =
    let (c', res) = hit_consecutive c id in let (c'', rest) = hit_all c' ids in (c'', res ∷ rest)
