-- ===== src/Base/Digits.antt =====
-- `bit_and` and `bit_xor` by their lowest digit, at every width, and the two laws that the
-- mixed boolean arithmetic rests on.
use Prim.Native.Nat.{
  ℕ, zero, suc, ◌+◌, ◌-◌, ◌*◌, ◌/◌, ◌%◌, ◌^◌, ◌≤◌, ◌<◌, min, differ, bit_and, bit_xor, digits,
  bit_and-bitwise, bit_xor-bitwise,
}
use mathlib.Core.Path.{◌≡◌, refl, ap}
use native.Mathlib.Nat.{pow-suc, one-le-pow}
use native.Mathlib.Omega.{arith}

-- Any two amounts of fuel that cover the first number give the same digits.
module _ (z : ℕ → ℕ) (f : ℕ → ℕ → ℕ) where
  enough_digits : (n m a b : ℕ) → a ≤ n → a ≤ m → digits z f n a b ≡ digits z f m a b
  enough_digits zero zero a b p q = refl
  enough_digits zero (suc m) zero b p q = refl
  enough_digits zero (suc m) (suc a) b p q = absurd (omega arith)
  enough_digits (suc n) zero zero b p q = refl
  enough_digits (suc n) zero (suc a) b p q = absurd (omega arith)
  enough_digits (suc n) (suc m) zero b p q = refl
  enough_digits (suc n) (suc m) (suc a) b p q =
      omega (arith, enough_digits n m (suc a / 2) (b / 2) (omega arith) (omega arith))

bit_and_digit : (a b : ℕ) → bit_and a b ≡ bit_and (a / 2) (b / 2) * 2 + min (a % 2) (b % 2)
bit_and_digit zero b = omega (arith, bit_and-bitwise 0 b, bit_and-bitwise 0 (b / 2))
bit_and_digit (suc a) b = omega (
  arith,
  bit_and-bitwise (suc a) b,
  bit_and-bitwise (suc a / 2) (b / 2),
  enough_digits (λ _. 0) min a (suc a / 2) (suc a / 2) (b / 2) (omega arith) (omega arith),
)

differ-digits : (x y : ℕ) → x < 2 → y < 2 → differ x y ≡ (x + y) % 2
differ-digits zero y h k = omega arith
differ-digits (suc zero) zero h k = refl
differ-digits (suc zero) (suc zero) h k = refl
differ-digits (suc zero) (suc (suc y)) h k = absurd (omega arith)
differ-digits (suc (suc x)) y h k = absurd (omega arith)

half_ones : (w : ℕ) → (2 ^ suc w - 1) / 2 ≡ 2 ^ w - 1
half_ones w = omega (arith, pow-suc 2 w, one-le-pow w 2)

bit_xor_digit : (a b : ℕ) → bit_xor a b ≡ bit_xor (a / 2) (b / 2) * 2 + (a % 2 + b % 2) % 2
bit_xor_digit zero b = omega (arith, bit_xor-bitwise 0 b, bit_xor-bitwise 0 (b / 2))
bit_xor_digit (suc a) b = omega (
  arith,
  bit_xor-bitwise (suc a) b,
  bit_xor-bitwise (suc a / 2) (b / 2),
  enough_digits (λ c. c) differ a (suc a / 2) (suc a / 2) (b / 2) (omega arith) (omega arith),
  differ-digits (suc a % 2) (b % 2) (omega arith) (omega arith),
)

sum_of_bits_fuel : (n a b : ℕ) → a ≤ n → bit_xor a b + 2 * bit_and a b ≡ a + b
sum_of_bits_fuel n zero b h = omega (arith, bit_xor-bitwise 0 b, bit_and-bitwise 0 b)
sum_of_bits_fuel zero (suc a) b h = absurd (omega arith)
sum_of_bits_fuel (suc n) (suc a) b h = omega (
  arith,
  bit_xor_digit (suc a) b,
  bit_and_digit (suc a) b,
  sum_of_bits_fuel n (suc a / 2) (b / 2) (omega arith),
)

-- A sum is its digits without carry, and twice the carries.
pub sum_of_bits : (a b : ℕ) → bit_xor a b + 2 * bit_and a b ≡ a + b
sum_of_bits a b = sum_of_bits_fuel a a b (omega arith)

-- Exclusive or with `w` ones flips each of `w` digits.
pub bit_xor_ones : (w b : ℕ) → b < 2 ^ w → bit_xor b (2 ^ w - 1) ≡ 2 ^ w - 1 - b
bit_xor_ones zero zero h = refl
bit_xor_ones zero (suc b) h = absurd (omega arith)
bit_xor_ones (suc w) b h = omega (
  arith,
  pow-suc 2 w,
  one-le-pow w 2,
  bit_xor_digit b (2 ^ suc w - 1),
  ap (bit_xor (b / 2)) (half_ones w),
  bit_xor_ones w (b / 2) (omega (arith, pow-suc 2 w)),
)
