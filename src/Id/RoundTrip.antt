-- ===== src/Id/RoundTrip.antt =====
-- id.go: NewID against Zone and Node.
use paxi.Common.{ℕ, ◌<◌, ◌^◌, ◌≡◌, arith}
use paxi.Id.{pos, new_id, zone, node}
use paxi.Id.Strconv.{
  itoa, itoa-IsDigits, parse_uint-itoa, split_at-digits, split_at-digits_end, contains-digits,
}

module _ (z n : ℕ) (z_fits : z < 2 ^ 64) (n_fits : n < 2 ^ 64) where
  pub zone-new_id : zone (new_id (pos z) (pos n)) ≡ z
  unfolding zone new_id
  zone-new_id =
      rw (contains-digits (itoa z), split_at-digits (itoa z) _ (itoa-IsDigits z))
        (parse_uint-itoa z (omega arith))

  pub node-new_id : node (new_id (pos z) (pos n)) ≡ n
  unfolding node new_id
  node-new_id =
      rw
        (
          contains-digits (itoa z),
          split_at-digits (itoa z) _ (itoa-IsDigits z),
          split_at-digits_end (itoa n) (itoa-IsDigits n),
        )
        (parse_uint-itoa n (omega arith))

-- For zone and node numbers below 2^64, Zone and Node read back from NewID(zone, node) exactly the
-- two numbers; so two identifiers are the same string only if both parts agree.
pub new_id_roundtrip :
    (z n : ℕ)
    → z < 2 ^ 64
    → n < 2 ^ 64
    → (zone (new_id (pos z) (pos n)) ≡ z) × (node (new_id (pos z) (pos n)) ≡ n)
new_id_roundtrip z n hz hn = (zone-new_id z n hz hn, node-new_id z n hz hn)
