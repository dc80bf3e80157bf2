-- ===== src/Base/Bits.antt =====
-- `bit_or` of two numbers whose binary digits do not meet.
use Prim.Native.Nat.{
  ℕ, zero, suc, ◌+◌, ◌*◌, ◌/◌, ◌%◌, ◌^◌, ◌≤◌, ◌<◌, max, bit_or, digits, bit_or-bitwise,
}
use mathlib.Core.Path.{◌≡◌, refl, ap}
use native.Mathlib.Nat.{pow-suc, le_refl}
use native.Mathlib.Omega.{arith}

abbrev or_digits : ℕ → ℕ → ℕ → ℕ
or_digits n a b = digits (λ b. b) max n a b

or_digits_fuel : (n m a b : ℕ) → a ≤ n → a ≤ m → or_digits n a b ≡ or_digits m a b
or_digits_fuel zero zero a b p q = refl
or_digits_fuel zero (suc m) zero b p q = refl
or_digits_fuel zero (suc m) (suc a) b p q = absurd (omega arith)
or_digits_fuel (suc n) zero zero b p q = refl
or_digits_fuel (suc n) zero (suc a) b p q = absurd (omega arith)
or_digits_fuel (suc n) (suc m) zero b p q = refl
or_digits_fuel (suc n) (suc m) (suc a) b p q =
    omega (arith, or_digits_fuel n m (suc a / 2) (b / 2) (omega arith) (omega arith))

zero-bit_or : (b : ℕ) → bit_or 0 b ≡ b
zero-bit_or b = bit_or-bitwise 0 b

-- The lowest digit of each, and the rest.
bit_or_step : (a b : ℕ) → bit_or a b ≡ bit_or (a / 2) (b / 2) * 2 + max (a % 2) (b % 2)
bit_or_step zero b = omega (arith, zero-bit_or b, zero-bit_or (b / 2))
bit_or_step (suc a) b = omega (
  arith,
  bit_or-bitwise (suc a) b,
  bit_or-bitwise (suc a / 2) (b / 2),
  or_digits_fuel a (suc a / 2) (suc a / 2) (b / 2) (omega arith) (omega arith),
)

bit_or-zero_fuel : (n a : ℕ) → a ≤ n → bit_or a 0 ≡ a
bit_or-zero_fuel n zero h = refl
bit_or-zero_fuel zero (suc a) h = absurd (omega arith)
bit_or-zero_fuel (suc n) (suc a) h =
    omega (arith, bit_or_step (suc a) 0, bit_or-zero_fuel n (suc a / 2) (omega arith))

double_pow : (k c : ℕ) → c * 2 ^ suc k ≡ c * 2 ^ k * 2
double_pow k c = rw (pow-suc 2 k) (omega arith)

bit_or_apart : (k c b : ℕ) → b < 2 ^ k → bit_or (c * 2 ^ k) b ≡ c * 2 ^ k + b
bit_or_apart zero c b h = omega (
  arith,
  ap (bit_or (c * 2 ^ 0)) (zero_of b h),
  bit_or-zero_fuel (c * 2 ^ 0) (c * 2 ^ 0) (le_refl _),
)
  where
    zero_of : (b : ℕ) → b < 2 ^ 0 → b ≡ 0
    zero_of b h = omega arith
bit_or_apart (suc k) c b h = omega (
  arith,
  double_pow k c,
  bit_or_step (c * 2 ^ suc k) b,
  ap (λ t. bit_or t (b / 2)) half,
  bit_or_apart k c (b / 2) (omega (arith, pow-suc 2 k)),
)
  where
    half : c * 2 ^ suc k / 2 ≡ c * 2 ^ k
    half = omega (arith, double_pow k c)

-- A number with ten zero digits at the end, and one of at most ten digits.
pub bit_or_flags : (a b : ℕ) → b < 1024 → bit_or (a * 1024) b ≡ a * 1024 + b
bit_or_flags a b h = bit_or_apart 10 a b h
