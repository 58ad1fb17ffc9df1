-- ===== src/Ballot/Bits.antt =====
-- A bitwise or of numbers that share no bit is their sum.
use Prim.Native.Nat.{bit_or, bit_or-bitwise, digits, max}
use paxi.Common.{ℕ, zero, suc, ◌+◌, ◌*◌, ◌/◌, ◌%◌, ◌≤◌, ◌<◌, ◌≡◌, refl, ap, arith}
use native.Mathlib.Decide.{dec_lt}

-- The native operation stands for this recursion on the digits.
abbrev or_digits : ℕ → ℕ → ℕ → ℕ
or_digits n a b = digits (λ b. b) max n a b

or_digits_fuel : (n m a b : ℕ) → a ≤ n → a ≤ m → or_digits n a b ≡ or_digits m a b
or_digits_fuel zero zero a b p q = refl
or_digits_fuel zero (suc m) zero b p q = refl
or_digits_fuel zero (suc m) (suc a) b p q = absurd (omega arith)
or_digits_fuel (suc n) zero zero b p q = refl
or_digits_fuel (suc n) zero (suc a) b p q = absurd (omega arith)
or_digits_fuel (suc n) (suc m) zero b p q = refl
or_digits_fuel (suc n) (suc m) (suc a) b p q =
    omega (arith, or_digits_fuel n m (suc a / 2) (b / 2) (omega arith) (omega arith))

pub zero-bit_or : (b : ℕ) → bit_or 0 b ≡ b
zero-bit_or b = bit_or-bitwise 0 b

bit_or_step : (a b : ℕ) → bit_or a b ≡ bit_or (a / 2) (b / 2) * 2 + max (a % 2) (b % 2)
bit_or_step zero b = omega (arith, zero-bit_or b, zero-bit_or (b / 2))
bit_or_step (suc a) b = omega (
  arith,
  bit_or-bitwise (suc a) b,
  bit_or-bitwise (suc a / 2) (b / 2),
  or_digits_fuel a (suc a / 2) (suc a / 2) (b / 2) (omega arith) (omega arith),
)

bit_or-zero_below : (n a : ℕ) → a ≤ n → bit_or a 0 ≡ a
bit_or-zero_below zero zero h = refl
bit_or-zero_below zero (suc a) h = absurd (omega arith)
bit_or-zero_below (suc n) a h = elim (dec_lt 0 a) [
  | yes p ↦ omega (arith, bit_or_step a 0, bit_or-zero_below n (a / 2) (omega arith))
  | no p ↦ omega (arith, bit_or_step a 0, bit_or-zero_below n (a / 2) (omega arith))
]

-- `x` with `k` zero bits put behind it.
abbrev pub double : ℕ → ℕ → ℕ
double zero x = x
double (suc k) x = double k x * 2

pub bit_or-double : (k x b : ℕ) → b < double k 1 → bit_or (double k x) b ≡ double k x + b
bit_or-double zero x b h =
    let e : b ≡ 0 = omega arith in rw e (omega (arith, bit_or-zero_below x x (omega arith)))
bit_or-double (suc k) x b h =
    let half : double k x * 2 / 2 ≡ double k x = omega arith in
    let ih = bit_or-double k x (b / 2) (omega arith) in
    omega (arith, bit_or_step (double k x * 2) b, ap (λ t. bit_or t (b / 2)) half)
