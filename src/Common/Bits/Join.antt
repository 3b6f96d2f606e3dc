-- ===== src/Common/Bits/Join.antt =====
-- `|` of two words whose set bits do not meet, at every width: the step of `read_leb` that joins
-- seven more bits to the result, and the one that fills the sign bits.
use Prim.Native.Nat.{
  ℕ, zero, suc, ◌+◌, ◌*◌, ◌/◌, ◌%◌, ◌^◌, ◌≤◌, ◌<◌, max, bit_or, digits, bit_or-bitwise,
}
use mathlib.Core.Path.{◌≡◌, refl, ap}
use native.Mathlib.Omega.{arith}
use native.Mathlib.Nat.{pow-suc}

abbrev or_digits : ℕ → ℕ → ℕ → ℕ
or_digits n a b = digits (λ y. y) max n a b

-- The digit recursion does not depend on its bound, once that is large enough.
or_digits_bound : (n m a b : ℕ) → a ≤ n → a ≤ m → or_digits n a b ≡ or_digits m a b
or_digits_bound zero zero a b p q = refl
or_digits_bound zero (suc m) zero b p q = refl
or_digits_bound zero (suc m) (suc a) b p q = absurd (omega arith)
or_digits_bound (suc n) zero zero b p q = refl
or_digits_bound (suc n) zero (suc a) b p q = absurd (omega arith)
or_digits_bound (suc n) (suc m) zero b p q = refl
or_digits_bound (suc n) (suc m) (suc a) b p q =
    omega (arith, or_digits_bound n m (suc a / 2) (b / 2) (omega arith) (omega arith))

zero-bit_or : (b : ℕ) → bit_or 0 b ≡ b
zero-bit_or b = bit_or-bitwise 0 b

bit_or_halves : (a b : ℕ) → bit_or a b ≡ bit_or (a / 2) (b / 2) * 2 + max (a % 2) (b % 2)
bit_or_halves zero b = omega (arith, zero-bit_or b, zero-bit_or (b / 2))
bit_or_halves (suc a) b = omega (
  arith,
  bit_or-bitwise (suc a) b,
  bit_or-bitwise (suc a / 2) (b / 2),
  or_digits_bound a (suc a / 2) (suc a / 2) (b / 2) (omega arith) (omega arith),
)

double : (q k : ℕ) → q * 2 ^ suc k ≡ 2 * (q * 2 ^ k)
double q k = omega (arith, ap (λ (t : ℕ). q * t) (pow-suc 2 k))

-- The lower `k` bits of one word and the bits from `k` on of another.
pub bit_or_join : (k r q : ℕ) → r < 2 ^ k → bit_or r (q * 2 ^ k) ≡ r + q * 2 ^ k
bit_or_join zero r q h = ground (arith, zero-bit_or (q * 2 ^ zero))
bit_or_join (suc k) r q h = ground (
  arith,
  bit_or_halves r (q * 2 ^ suc k),
  double q k,
  pow-suc 2 k,
  bit_or_join k (r / 2) q (omega (arith, pow-suc 2 k)),
)

-- Two words of some width join to a word of that width.
pub bit_or_bounded : (k a b : ℕ) → a < 2 ^ k → b < 2 ^ k → bit_or a b < 2 ^ k
bit_or_bounded zero a b h h' =
    let none : a ≡ 0 = omega arith in omega (arith, ap (λ a. bit_or a b) none, zero-bit_or b)
bit_or_bounded (suc k) a b h h' = omega (
  arith,
  bit_or_halves a b,
  pow-suc 2 k,
  bit_or_bounded k (a / 2) (b / 2) (omega (arith, pow-suc 2 k)) (omega (arith, pow-suc 2 k)),
)
