-- ===== src/Ballot/Order.antt =====
-- ballot.go: the order of ballots, which decides between leaders.
use paxi.Common.{ℕ, ◌+◌, ◌^◌, ◌<◌, ◌/◌, ◌%◌, ◌≡◌, ◌⊎◌, ◌↔◌, arith}
use paxi.Id.{NodeId, zone, node}
use paxi.Ballot.{Ballot, new_ballot, counter, next}
use paxi.Ballot.Packing.{Fits, new_ballot_sum}

-- The order of two ballots is the lexicographic order of counter, zone and node.
pub new_ballot-lt :
    (n m : ℕ) (i j : NodeId)
    → n < 2 ^ 32
    → m < 2 ^ 32
    → Fits i
    → Fits j
    → (new_ballot n i < new_ballot m j) ↔ (
        (n < m) ⊎ ((n ≡ m) × (zone i < zone j)) ⊎ ((n ≡ m) × (zone i ≡ zone j) × (node i < node j)))
new_ballot-lt n m i j hn hm fi fj = (
  λ h. grind (arith, new_ballot_sum n i hn fi, new_ballot_sum m j hm fj),
  λ h. omega (arith, new_ballot_sum n i hn fi, new_ballot_sum m j hm fj),
)

-- For a node whose zone and node are below 2^16, and a ballot whose counter is below 2^32 - 1, Next
-- gives a larger ballot, and one that is larger than every ballot with the old counter; its counter
-- is the next one.
pub next_grows :
    (b : Ballot) (id : NodeId)
    → counter b + 1 < 2 ^ 32
    → Fits id
    → (b < next b id)
      × (counter (next b id) ≡ counter b + 1)
      × ((c : Ballot) → counter c ≡ counter b → c < next b id)
unfolding next counter
next_grows b id h fits =
    let packed = new_ballot_sum (b / 2 ^ 32 + 1) id h fits in
    let counted : (b / 2 ^ 32 + 1) % 2 ^ 64 ≡ b / 2 ^ 32 + 1 = omega arith in
    (rw counted (omega arith), rw counted (omega arith), λ c e. rw counted (omega arith))
