-- ===== src/Ballot.antt =====
-- ballot.go: a ballot packs a counter in 32 bits, a zone in 16 and a node in 16 into a uint64.
pub mod Bits
pub mod Packing
pub mod Order
use Prim.Native.Nat.{bit_or}
use paxi.Common.{
  ℕ, ◌+◌, ◌-◌, ◌*◌, ◌/◌, ◌%◌, ◌^◌, ◌<◌, List, [], ◌∷◌, ◌++◌, Bytes, ltb, if◌then◌else◌,
}
use paxi.Id
use paxi.Id.{NodeId, pos, new_id, zone, node, show_int, dot}
use paxi.Id.Strconv.{parse_uint, split_at, count_byte, itoa}

-- type Ballot uint64
abbrev pub Ballot : Type 0
Ballot = ℕ

-- `a << k` on 64 bits.
abbrev pub shl64 : ℕ → ℕ → ℕ
shl64 a k = a * 2 ^ k % 2 ^ 64

-- `a >> k` on a uint64.
abbrev pub shr64 : ℕ → ℕ → ℕ
shr64 a k = a / 2 ^ k

-- `a >> k` on an int, which repeats the sign bit: at 32 bits.
abbrev pub sar32 : ℕ → ℕ
sar32 a = if ltb a (2 ^ 63) then a / 2 ^ 32 else a / 2 ^ 32 + (2 ^ 64 - 2 ^ 32)

unfoldable pub new_ballot : ℕ → NodeId → Ballot
new_ballot n id = bit_or (bit_or (shl64 n 32) (shl64 (zone id) 16)) (node id)

-- Ballot.N
unfoldable pub counter : Ballot → ℕ
counter b = shr64 b 32

-- Ballot.ID: `uint32(b) >> 16` and `uint16(b)`.
unfoldable pub ballot_id : Ballot → NodeId
ballot_id b = new_id (pos (shr64 (b % 2 ^ 32) 16)) (pos (b % 2 ^ 16))

-- Ballot.Next, which assigns the new ballot to its receiver.
unfoldable pub next : Ballot → NodeId → Ballot
next b id = new_ballot ((counter b + 1) % 2 ^ 64) id

unfoldable pub next_ballot : ℕ → NodeId → ℕ
next_ballot ballot id =
    bit_or (shl64 ((sar32 ballot + 1) % 2 ^ 64) 32) (bit_or (shl64 (zone id) 16) (node id))

unfoldable pub leader_id : ℕ → NodeId
leader_id ballot = new_id (pos (shr64 (ballot % 2 ^ 32) 16)) (pos (ballot % 2 ^ 16))

-- Ballot.String
unfoldable pub show_ballot : Ballot → Bytes
show_ballot b = itoa (counter b) ++ dot ∷ ballot_id b

-- The int that a 64-bit pattern is.
abbrev pub to_int : ℕ → Id.Int64
to_int n = if ltb n (2 ^ 63) then Id.pos n else Id.neg (2 ^ 64 - n - 1)

-- NewBallotFromString: a text with fewer than two dots is ballot 0; parse errors are only logged.
unfoldable pub new_ballot_from_string : Bytes → Ballot
new_ballot_from_string b =
    let (n, rest) = split_at dot b in
    let (z, last) = split_at dot rest in
    if ltb (count_byte dot b) 2
    then 0
    else new_ballot (parse_uint n)
        (new_id (to_int (parse_uint z)) (to_int (parse_uint (split_at dot last).0)))
