-- ===== src/Common/Bits.antt =====
-- Shifts and masks of machine words as arithmetic. A word is a number below its modulus.
use Prim.Native.Nat.{
  ℕ, zero, suc, ◌+◌, ◌*◌, ◌/◌, ◌%◌, ◌^◌, ◌≤◌, ◌<◌, min, max, bit_and, bit_or, digits,
  bit_and-bitwise, bit_or-bitwise,
}
use mathlib.Core.Path.{◌≡◌, refl, ap}
use native.Mathlib.Nat.{pow-suc}
use native.Mathlib.Omega.{arith}

infixl 75 ◌<<◌ ◌>>◌
abbrev pub ◌<<◌ : ℕ → ℕ → ℕ
x << k = x * 2 ^ k

abbrev pub ◌>>◌ : ℕ → ℕ → ℕ
x >> k = x / 2 ^ k

abbrev pub u8 : ℕ → ℕ
u8 x = x % 2 ^ 8

abbrev pub u16 : ℕ → ℕ
u16 x = x % 2 ^ 16

abbrev pub u32 : ℕ → ℕ
u32 x = x % 2 ^ 32

abbrev pub u64 : ℕ → ℕ
u64 x = x % 2 ^ 64

-- More fuel than digits changes nothing.
module _ (z : ℕ → ℕ) (f : ℕ → ℕ → ℕ) where
  digits_enough : (a b n m : ℕ) → a ≤ n → n ≤ m → digits z f n a b ≡ digits z f m a b
  digits_enough zero b zero zero p q = refl
  digits_enough zero b zero (suc m) p q = refl
  digits_enough zero b (suc n) zero p q = absurd (omega arith)
  digits_enough zero b (suc n) (suc m) p q = refl
  digits_enough (suc a) b zero m p q = absurd (omega arith)
  digits_enough (suc a) b (suc n) zero p q = absurd (omega arith)
  digits_enough (suc a) b (suc n) (suc m) p q =
      ap (λ d. d * 2 + f (suc a % 2) (b % 2))
        (digits_enough (suc a / 2) (b / 2) n m (omega arith) (omega arith))

or_lowest : (a b : ℕ) → bit_or a b ≡ bit_or (a / 2) (b / 2) * 2 + max (a % 2) (b % 2)
or_lowest zero b = simp bit_or-bitwise (omega arith)
or_lowest (suc a) b = simp bit_or-bitwise (
    omega (
      arith,
      digits_enough (λ y. y) max (suc a / 2) (b / 2) (suc a / 2) a (omega arith) (omega arith),
    ))

and_lowest : (a b : ℕ) → bit_and a b ≡ bit_and (a / 2) (b / 2) * 2 + min (a % 2) (b % 2)
and_lowest zero b = simp bit_and-bitwise (omega arith)
and_lowest (suc a) b = simp bit_and-bitwise (
    omega (
      arith,
      digits_enough (λ y. 0) min (suc a / 2) (b / 2) (suc a / 2) a (omega arith) (omega arith),
    ))

-- The bound on the number is the recursion's fuel.
or_zero_fuel : (n a : ℕ) → a ≤ n → bit_or a 0 ≡ a
or_zero_fuel n zero h = refl
or_zero_fuel zero (suc a) h = absurd (omega arith)
or_zero_fuel (suc n) (suc a) h =
    omega (arith, or_lowest (suc a) 0, or_zero_fuel n (suc a / 2) (omega arith))

and_zero_fuel : (n a : ℕ) → a ≤ n → bit_and a 0 ≡ 0
and_zero_fuel n zero h = refl
and_zero_fuel zero (suc a) h = absurd (omega arith)
and_zero_fuel (suc n) (suc a) h =
    omega (arith, and_lowest (suc a) 0, and_zero_fuel n (suc a / 2) (omega arith))

double_shift : (q k : ℕ) → q << suc k ≡ 2 * (q << k)
double_shift q k = omega (arith, ap (λ (t : ℕ). q * t) (pow-suc 2 k))

-- `(q << k) | r` is a sum where `r` has `k` bits at most.
pub or_fields : (k q r : ℕ) → r < 2 ^ k → bit_or (q << k) r ≡ q * 2 ^ k + r
or_fields zero q r h = ground (arith, or_zero_fuel q q)
or_fields (suc k) q r h =
    ground (arith, or_lowest (q << suc k) r, double_shift q k, or_fields k q (r / 2) (omega arith))

pub and_one : (x : ℕ) → bit_and x 1 ≡ x % 2
and_one x = omega (arith, and_lowest x 1, and_zero_fuel (x / 2) (x / 2))

pub and_seven : (x : ℕ) → bit_and x 7 ≡ x % 8
and_seven x = omega (arith, and_lowest x 7, and_lowest (x / 2) 3, and_one (x / 2 / 2))

and_nibble : (x : ℕ) → bit_and x 15 ≡ x % 16
and_nibble x = omega (arith, and_lowest x 15, and_seven (x / 2))

and_six_bits : (x : ℕ) → bit_and x 63 ≡ x % 64
and_six_bits x = omega (arith, and_lowest x 63, and_lowest (x / 2) 31, and_nibble (x / 2 / 2))

-- `x & 0xFF` keeps the lowest byte.
pub and_byte : (x : ℕ) → bit_and x 0xff ≡ x % 256
and_byte x = omega (arith, and_lowest x 255, and_lowest (x / 2) 127, and_six_bits (x / 2 / 2))
