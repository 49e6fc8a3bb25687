-- ===== src/Base/Words.antt =====
-- JavaScript's operations on 32-bit patterns, kept as natural numbers below 2 ^ 32.
use Prim.Native.Nat.{
  ℕ, zero, suc, ◌+◌, ◌*◌, ◌/◌, ◌%◌, ◌^◌, ◌≤◌, ◌<◌, max, bit_or, digits, bit_or-bitwise,
}
use mathlib.Core.Path.{◌≡◌, refl, ap}
use native.Mathlib.Omega.{arith}
use native.Mathlib.Nat.{pow-suc}

-- `x << k`
abbrev pub shl : ℕ → ℕ → ℕ
shl x k = (x * 2 ^ k) % 2 ^ 32

-- `x >>> k`
abbrev pub shr : ℕ → ℕ → ℕ
shr x k = (x % 2 ^ 32) / 2 ^ k

-- `x >>> 0`
abbrev pub to_u32 : ℕ → ℕ
to_u32 x = x % 2 ^ 32

abbrev or_digits : ℕ → ℕ → ℕ → ℕ
or_digits n a b = digits (λ b. b) max n a b

or_digits_fuel : (n m a b : ℕ) → a ≤ n → a ≤ m → or_digits n a b ≡ or_digits m a b
or_digits_fuel zero zero a b p q = refl
or_digits_fuel zero (suc m) zero b p q = refl
or_digits_fuel zero (suc m) (suc a) b p q = absurd (omega arith)
or_digits_fuel (suc n) zero zero b p q = refl
or_digits_fuel (suc n) zero (suc a) b p q = absurd (omega arith)
or_digits_fuel (suc n) (suc m) zero b p q = refl
or_digits_fuel (suc n) (suc m) (suc a) b p q =
    omega (arith, or_digits_fuel n m (suc a / 2) (b / 2) (omega arith) (omega arith))

zero-bit_or : (b : ℕ) → bit_or 0 b ≡ b
zero-bit_or b = bit_or-bitwise 0 b

bit_or_step : (a b : ℕ) → bit_or a b ≡ bit_or (a / 2) (b / 2) * 2 + max (a % 2) (b % 2)
bit_or_step zero b = omega (arith, zero-bit_or b, zero-bit_or (b / 2))
bit_or_step (suc a) b = omega (
  arith,
  bit_or-bitwise (suc a) b,
  bit_or-bitwise (suc a / 2) (b / 2),
  or_digits_fuel a (suc a / 2) (suc a / 2) (b / 2) (omega arith) (omega arith),
)

or_double : (a b : ℕ) → bit_or a (b * 2) ≡ bit_or (a / 2) b * 2 + a % 2
or_double a b = omega (arith, bit_or_step a (b * 2), ap (bit_or (a / 2)) (half b))
  where
    half : (b : ℕ) → b * 2 / 2 ≡ b
    half b = omega arith

-- Where the bits do not meet, `|` adds.
pub bit_or-disjoint : (k a b : ℕ) → a < 2 ^ k → bit_or a (b * 2 ^ k) ≡ a + b * 2 ^ k
bit_or-disjoint zero zero b h = omega (arith, zero-bit_or (b * 1))
bit_or-disjoint zero (suc a) b h = absurd (omega arith)
bit_or-disjoint (suc k) a b h =
    let regroup : b * 2 ^ suc k ≡ b * 2 ^ k * 2 = omega (arith, ap (b *◌) (pow-suc 2 k)) in
    let below : a / 2 < 2 ^ k = omega (arith, pow-suc 2 k) in
    omega (
      arith,
      ap (bit_or a) regroup,
      regroup,
      or_double a (b * 2 ^ k),
      bit_or-disjoint k (a / 2) b below,
    )
