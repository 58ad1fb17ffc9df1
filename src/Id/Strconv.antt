-- ===== src/Id/Strconv.antt =====
-- What id.go and ballot.go use of Go's strconv and strings: Itoa, ParseUint, Contains, Count, Split.
use paxi.Common.{
  ℕ, zero, suc, ◌+◌, ◌-◌, ◌*◌, ◌/◌, ◌%◌, ◌^◌, ◌≤◌, ◌<◌, ◌≡◌, refl, Bool, true, false, ◌||◌, [], ◌∷◌,
  ◌++◌, Bytes, ltb, ◌==◌, if◌then◌else◌, arith, Bool-cases, append_assoc, append-nil, inl, inr,
}

-- The decimal digits of a number, with one unit of fuel for each digit.
pub decimal : ℕ → ℕ → Bytes
decimal zero n = []
decimal (suc f) n =
    let front = decimal f (n / 10) in
    if ltb n 10 then (b'0' + n) ∷ [] else front ++ (b'0' + n % 10) ∷ []

-- strconv.Itoa of a number that is not negative. An int has at most twenty digits.
unfoldable pub itoa : ℕ → Bytes
unfolding decimal
itoa n = decimal 20 n

abbrev pub max_uint64 : ℕ
max_uint64 = 2 ^ 64 - 1

-- The loop of strconv.ParseUint in base 10: 0 beside a syntax error, the largest uint64 beside a
-- range error, which stops the loop.
pub parse_digits : Bytes → ℕ → ℕ
parse_digits [] n = n
parse_digits (c ∷ s) n = elim (ltb c b'0' || ltb b'9' c) [
  | true ↦ 0
  | false ↦ elim (ltb max_uint64 (n * 10 + (c - b'0'))) [
    | true ↦ max_uint64
    | false ↦ parse_digits s (n * 10 + (c - b'0'))
  ]
]

-- The number that strconv.ParseUint(s, 10, 64) returns, whether it reports an error or not.
unfoldable pub parse_uint : Bytes → ℕ
unfolding parse_digits
parse_uint s = parse_digits s 0

-- strings.Contains for one byte.
unfoldable pub contains : ℕ → Bytes → Bool
contains b [] = false
contains b (c ∷ s) = c == b || contains b s

-- strings.Count for one byte.
unfoldable pub count_byte : ℕ → Bytes → ℕ
count_byte b [] = 0
count_byte b (c ∷ s) = (if c == b then 1 else 0) + count_byte b s

-- The text before the first separator, and the text behind it: the first part of strings.Split, and
-- what the other parts are split from.
unfoldable pub split_at : ℕ → Bytes → Bytes × Bytes
split_at b [] = ([], [])
split_at b (c ∷ s) =
    let (first, rest) = split_at b s in if c == b then ([], s) else (c ∷ first, rest)

-- Every byte of a decimal print is a digit.
abbrev pub IsDigits : Bytes → Type 0
IsDigits [] = Unit
IsDigits (c ∷ s) = (b'0' ≤ c) × (c ≤ b'9') × IsDigits s

IsDigits-append : (s t : Bytes) → IsDigits s → IsDigits t → IsDigits (s ++ t)
IsDigits-append [] t hs ht = ht
IsDigits-append (c ∷ s) t (lo, hi, hs) ht = (lo, hi, IsDigits-append s t hs ht)

decimal-IsDigits : (f n : ℕ) → IsDigits (decimal f n)
unfolding decimal
decimal-IsDigits zero n = tt
decimal-IsDigits (suc f) n = elim (Bool-cases (ltb n 10)) [
  | inl e ↦ rw e (ground arith)
  | inr e ↦ rw e (IsDigits-append _ _ (decimal-IsDigits f (n / 10)) (omega arith))
]

pub itoa-IsDigits : (n : ℕ) → IsDigits (itoa n)
unfolding itoa
itoa-IsDigits n = decimal-IsDigits 20 n

abbrev ten_power : ℕ → ℕ
ten_power zero = 1
ten_power (suc f) = 10 * ten_power f

-- Reading on from a decimal print is reading on from its number.
parse_digits-decimal :
    (f n : ℕ) (t : Bytes)
    → n < ten_power (suc f)
    → n ≤ max_uint64
    → parse_digits (decimal (suc f) n ++ t) 0 ≡ parse_digits t n
unfolding decimal parse_digits
parse_digits-decimal zero n t below fits = ground arith
parse_digits-decimal (suc f) n t below fits = elim (Bool-cases (ltb n 10)) [
  | inl e ↦ rw e (ground arith)
  | inr e ↦
      rw (e, append_assoc, parse_digits-decimal f (n / 10) _ (omega arith) (omega arith))
        (ground arith)
]

-- Every uint64 is read back from its decimal print.
pub parse_uint-itoa : (n : ℕ) → n ≤ max_uint64 → parse_uint (itoa n) ≡ n
unfolding parse_uint itoa parse_digits
parse_uint-itoa n fits =
    rw (← append-nil (decimal 20 n)) (parse_digits-decimal 19 n [] (omega arith) fits)

pub split_at-digits : (s t : Bytes) → IsDigits s → split_at b'.' (s ++ b'.' ∷ t) ≡ (s, t)
unfolding split_at
split_at-digits [] t h = refl
split_at-digits (c ∷ s) t (lo, hi, h) = ground (arith, split_at-digits s t h)

pub split_at-digits_end : (s : Bytes) → IsDigits s → split_at b'.' s ≡ (s, [])
unfolding split_at
split_at-digits_end [] h = refl
split_at-digits_end (c ∷ s) (lo, hi, h) = ground (arith, split_at-digits_end s h)

pub contains-digits : (s t : Bytes) → contains b'.' (s ++ b'.' ∷ t) ≡ true
unfolding contains
contains-digits [] t = refl
contains-digits (c ∷ s) t = ground (arith, contains-digits s t)
