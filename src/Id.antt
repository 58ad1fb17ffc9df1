-- ===== src/Id.antt =====
-- id.go: node identifiers "Zone.Node", and what they use of Go's strconv and strings packages.
-- A Go int or uint64 is its 64-bit pattern, a number below 2^64; `new_id` takes signed integers,
-- since it tests the sign.
pub mod Strconv
pub mod RoundTrip
use paxi.Common.{
  ℕ, zero, suc, ◌+◌, ◌-◌, ◌≡◌, refl, Bool, true, false, List, [], ◌∷◌, ◌++◌, Bytes, codes, ltb,
  ◌==◌, if◌then◌else◌, bytes_eq, arith, ◌^◌,
}
use paxi.Id.Strconv.{itoa, parse_uint, contains, split_at}

-- type ID string
abbrev pub NodeId : Type 0
NodeId = Bytes

abbrev pub dot : ℕ
dot = b'.'

-- A Go int that may be negative: `neg n` is -(n + 1).
pub data Int64 : Type 0 where
  pos : ℕ → Int64
  neg : ℕ → Int64

-- `if zone < 0 { zone = -zone }`: the least int64 is its own negation.
pub magnitude : Int64 → Int64
magnitude (pos n) = pos n
magnitude (neg n) = if suc n == 2 ^ 63 then neg n else pos (suc n)

pub show_int : Int64 → Bytes
show_int (pos n) = itoa n
show_int (neg n) = b'-' ∷ itoa (suc n)

-- A Go int is `pos n` for n below 2^63, or `neg n`, which is -(n + 1).
unfoldable pub new_id : Int64 → Int64 → NodeId
unfolding magnitude show_int
new_id zone node = show_int (magnitude zone) ++ dot ∷ show_int (magnitude node)

-- The parse error is only logged: the zone is then what ParseUint returns beside the error.
unfoldable pub zone : NodeId → ℕ
zone i = if contains dot i then parse_uint (split_at dot i).0 else 0

-- `strings.Split(i, ".")[1]` ends at the second dot.
unfoldable pub node : NodeId → ℕ
node i = if contains dot i then parse_uint (split_at dot (split_at dot i).1).0 else parse_uint i
