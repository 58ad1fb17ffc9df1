-- ===== src/Ballot/Packing.antt =====
-- ballot.go: NewBallot against N and ID, and the int versions against those of the type.
use Prim.Native.Nat.{bit_or}
use paxi.Common.{ℕ, ◌+◌, ◌*◌, ◌/◌, ◌%◌, ◌^◌, ◌<◌, ◌≡◌, refl, ap, arith}
use paxi.Id.{NodeId, pos, new_id, zone, node}
use paxi.Id.RoundTrip.{zone-new_id, node-new_id}
use paxi.Ballot.{Ballot, sar32, new_ballot, counter, ballot_id, next, next_ballot, leader_id}
use paxi.Ballot.Bits
use paxi.Ballot.Bits.{bit_or-double}

-- An identifier whose parts fit the 16 bits that a ballot has for each.
pub record Fits (id : NodeId) : Type 0 where
  pub zone_fits : zone id < 2 ^ 16
  pub node_fits : node id < 2 ^ 16

or_16 : (x b : ℕ) → b < 2 ^ 16 → bit_or (x * 2 ^ 16) b ≡ x * 2 ^ 16 + b
or_16 x b h =
    let e : double' x ≡ x * 2 ^ 16 = omega arith in
    omega (arith, bit_or-double 16 x b (omega arith), ap (λ t. bit_or t b) e)
  where
    double' : ℕ → ℕ
    double' x = Bits.double 16 x

or_32 : (x b : ℕ) → b < 2 ^ 32 → bit_or (x * 2 ^ 32) b ≡ x * 2 ^ 32 + b
or_32 x b h =
    let e : double' x ≡ x * 2 ^ 32 = omega arith in
    omega (arith, bit_or-double 32 x b (omega arith), ap (λ t. bit_or t b) e)
  where
    double' : ℕ → ℕ
    double' x = Bits.double 32 x

-- With every part in its range the three fields do not overlap.
pub new_ballot_sum :
    (n : ℕ) (id : NodeId)
    → n < 2 ^ 32
    → Fits id
    → new_ballot n id ≡ n * 2 ^ 32 + zone id * 2 ^ 16 + node id
unfolding new_ballot
new_ballot_sum n id small fits =
    let high : n * 2 ^ 32 % 2 ^ 64 ≡ n * 2 ^ 32 = omega arith in
    let middle : zone id * 2 ^ 16 % 2 ^ 64 ≡ zone id * 2 ^ 16 = omega arith in
    let joined : n * 2 ^ 32 + zone id * 2 ^ 16 ≡ (n * 2 ^ 16 + zone id) * 2 ^ 16 = omega arith in
    rw (high, middle, or_32 n (zone id * 2 ^ 16) (omega arith), joined)
      (omega (arith, or_16 (n * 2 ^ 16 + zone id) (node id) fits.node_fits))

-- N and ID read back the three fields that NewBallot packed, for a counter below 2^32 and an
-- identifier built from a zone and a node below 2^16.
pub new_ballot_roundtrip :
    (n z k : ℕ)
    → n < 2 ^ 32
    → z < 2 ^ 16
    → k < 2 ^ 16
    → (counter (new_ballot n (new_id (pos z) (pos k))) ≡ n)
      × (ballot_id (new_ballot n (new_id (pos z) (pos k))) ≡ new_id (pos z) (pos k))
unfolding counter ballot_id
new_ballot_roundtrip n z k hn hz hk =
    let id = new_id (pos z) (pos k) in
    let ez = zone-new_id z k (omega arith) (omega arith) in
    let ek = node-new_id z k (omega arith) (omega arith) in
    let packed =
      new_ballot_sum n id hn (record { zone_fits = omega arith; node_fits = omega arith }) in
    let zone_back : new_ballot n id % 2 ^ 32 / 2 ^ 16 ≡ z = omega arith in
    let node_back : new_ballot n id % 2 ^ 16 ≡ k = omega arith in
    (omega arith, rw (zone_back, node_back))

-- The fields of every 64-bit ballot fit again.
pub ballot_id-Fits : (b : Ballot) → Fits (ballot_id b)
unfolding ballot_id
ballot_id-Fits b =
    let z = b % 2 ^ 32 / 2 ^ 16 in
    let k = b % 2 ^ 16 in
    record {
      zone_fits = omega (arith, zone-new_id z k (omega arith) (omega arith));
      node_fits = omega (arith, node-new_id z k (omega arith) (omega arith));
    }

-- On an int ballot that is not negative, whose counter is below the largest, NextBallot and
-- LeaderID compute what Next and ID compute on a Ballot.
pub next_ballot-eq-next :
    (b : Ballot) (id : NodeId)
    → b < 2 ^ 63
    → counter b + 1 < 2 ^ 32
    → Fits id
    → (next_ballot b id ≡ next b id) × (leader_id b ≡ ballot_id b)
unfolding next_ballot next leader_id ballot_id counter
next_ballot-eq-next b id h below fits =
    let n : ℕ = b / 2 ^ 32 + 1 in
    let counted : (b / 2 ^ 32 + 1) % 2 ^ 64 ≡ n = omega arith in
    let signed : (sar32 b + 1) % 2 ^ 64 ≡ n = ground arith in
    let high : n * 2 ^ 32 % 2 ^ 64 ≡ n * 2 ^ 32 = omega arith in
    let middle : zone id * 2 ^ 16 % 2 ^ 64 ≡ zone id * 2 ^ 16 = omega arith in
    let low = or_16 (zone id) (node id) fits.node_fits in
    let all = or_32 n (zone id * 2 ^ 16 + node id) (omega arith) in
    (
      rw (signed, counted, high, middle, low, all, new_ballot_sum n id below fits) (omega arith),
      refl,
    )
