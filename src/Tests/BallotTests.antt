-- ===== src/Tests/BallotTests.antt =====
-- Identifiers and ballots by value.
use paxi.Common.{◌+◌, ◌-◌, ◌*◌, ◌^◌, ◌<◌, ◌≡◌, refl, arith, codes}
use paxi.Id.{new_id, pos, neg, zone, node}
use paxi.Id.Strconv.{contains, split_at, parse_uint, itoa, count_byte}
use paxi.Id.RoundTrip.{new_id_roundtrip}
use paxi.Ballot.{Ballot, new_ballot, counter, ballot_id, next, new_ballot_from_string, show_ballot}
use paxi.Ballot.Packing.{Fits, new_ballot_roundtrip}
use paxi.Ballot.Order.{next_grows}

-- All that an evaluation of ballots goes through.
ballots_run : Unit {0}
unfolding new_id zone node contains split_at parse_uint itoa new_ballot counter ballot_id next
    show_ballot new_ballot_from_string count_byte
ballots_run = tt

new_id_negative : new_id (neg 1) (pos 30) ≡ codes "2.30"
unfolding ballots_run
new_id_negative = refl

-- The error of ParseUint is dropped: a zone that is no number is 0, one that is too large 2^64 - 1.
zone_error : (zone (codes "x.3") ≡ 0) × (zone (codes "18446744073709551616.3") ≡ 2 ^ 64 - 1)
unfolding ballots_run
zone_error = (refl, refl)

show_one : show_ballot (new_ballot 3 (codes "2.1")) ≡ codes "3.2.1"
unfolding ballots_run
show_one = refl

from_string : new_ballot_from_string (codes "3.2.1") ≡ 3 * 2 ^ 32 + 2 * 2 ^ 16 + 1
unfolding ballots_run
from_string = refl

-- A zone that needs more than 16 bits runs into the counter.
zone_overflow : counter (new_ballot 2 (codes "65536.1")) ≡ 3
unfolding ballots_run
zone_overflow = refl

Fits-21 : Fits (codes "2.1")
unfolding ballots_run
Fits-21 = record { zone_fits = omega arith; node_fits = omega arith }

Fits-13 : Fits (codes "1.3")
unfolding ballots_run
Fits-13 = record { zone_fits = omega arith; node_fits = omega arith }

new_id_roundtrip_example : (zone (new_id (pos 2) (pos 1)) ≡ 2) × (node (new_id (pos 2) (pos 1)) ≡ 1)
new_id_roundtrip_example = new_id_roundtrip 2 1 (omega arith) (omega arith)

new_ballot_roundtrip_example :
    (counter (new_ballot 7 (new_id (pos 2) (pos 1))) ≡ 7)
    × (ballot_id (new_ballot 7 (new_id (pos 2) (pos 1))) ≡ new_id (pos 2) (pos 1))
new_ballot_roundtrip_example = new_ballot_roundtrip 7 2 1 (omega arith) (omega arith) (omega arith)

next_grows_example :
    (0 < next 0 (codes "2.1"))
    × (counter (next 0 (codes "2.1")) ≡ counter 0 + 1)
    × ((c : Ballot) → counter c ≡ counter 0 → c < next 0 (codes "2.1"))
unfolding ballots_run
next_grows_example = next_grows 0 (codes "2.1") (omega arith) Fits-21
