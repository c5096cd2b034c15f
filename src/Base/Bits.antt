-- ===== src/Base/Bits.antt =====
-- Bit operations at variables, for the masks and the shift of the source.
use Prim.Native.Nat.{
  ℕ, zero, suc, ◌+◌, ◌-◌, ◌*◌, ◌/◌, ◌%◌, ◌≤◌, ◌<◌, min, max, bit_and, bit_or, digits,
  bit_and-bitwise, bit_or-bitwise,
}
use mathlib.Core.Path.{◌≡◌}
use native.Mathlib.Nat.{mul_assoc, one-mul}
use native.Mathlib.Omega.{arith}

-- One more digit to go than the first number has makes no difference, for any operation on digits.
module _ (last : ℕ → ℕ) (op : ℕ → ℕ → ℕ) where
  digits_enough : (k n a b : ℕ) → a ≤ n → digits last op (n + k) a b ≡ digits last op n a b
  digits_enough zero n a b h = rw (add_zero n)
    where
      add_zero : (m : ℕ) → m + 0 ≡ m
      add_zero m = omega arith
  digits_enough (suc k) zero zero b h = rw (zero_add (suc k))
    where
      zero_add : (m : ℕ) → 0 + m ≡ m
      zero_add m = omega arith
  digits_enough (suc k) zero (suc a) b h = absurd (omega arith)
  digits_enough (suc k) (suc n) zero b h = rw (suc_out n k)
    where
      suc_out : (m j : ℕ) → suc m + suc j ≡ suc (m + suc j)
      suc_out m j = omega arith
  digits_enough (suc k) (suc n) (suc a) b h =
      rw (suc_out n k) (omega (arith, digits_enough (suc k) n (suc a / 2) (b / 2) (omega arith)))
    where
      suc_out : (m j : ℕ) → suc m + suc j ≡ suc (m + suc j)
      suc_out m j = omega arith

  digits_half :
      (a b : ℕ) → digits last op a (suc a / 2) b ≡ digits last op (suc a / 2) (suc a / 2) b
  digits_half a b =
      rw split at (digits_enough (a - suc a / 2) (suc a / 2) (suc a / 2) b (omega arith))
    where
      split : suc a / 2 + (a - suc a / 2) ≡ a
      split = omega arith

pub bit_and_halves : (a b : ℕ) → bit_and a b ≡ 2 * bit_and (a / 2) (b / 2) + min (a % 2) (b % 2)
bit_and_halves zero b = omega (arith, bit_and-bitwise 0 b, bit_and-bitwise 0 (b / 2))
bit_and_halves (suc a) b = omega (
  arith,
  bit_and-bitwise (suc a) b,
  bit_and-bitwise (suc a / 2) (b / 2),
  digits_half (λ _. zero) min a (b / 2),
)

pub bit_or_halves : (a b : ℕ) → bit_or a b ≡ 2 * bit_or (a / 2) (b / 2) + max (a % 2) (b % 2)
bit_or_halves zero b = omega (arith, bit_or-bitwise 0 b, bit_or-bitwise 0 (b / 2))
bit_or_halves (suc a) b = omega (
  arith,
  bit_or-bitwise (suc a) b,
  bit_or-bitwise (suc a / 2) (b / 2),
  digits_half (λ d. d) max a (b / 2),
)

-- The empty mask, by a bound on the number.
bit_and_none : (k a : ℕ) → a ≤ k → bit_and a 0 ≡ 0
bit_and_none zero zero h = bit_and-bitwise 0 0
bit_and_none zero (suc a) h = absurd (omega arith)
bit_and_none (suc k) zero h = bit_and-bitwise 0 0
bit_and_none (suc k) (suc a) h =
    omega (arith, bit_and_halves (suc a) 0, bit_and_none k (suc a / 2) (omega arith))

bit_or_none : (k a : ℕ) → a ≤ k → bit_or a 0 ≡ a
bit_or_none k zero h = bit_or-bitwise 0 0
bit_or_none zero (suc a) h = absurd (omega arith)
bit_or_none (suc k) (suc a) h =
    omega (arith, bit_or_halves (suc a) 0, bit_or_none k (suc a / 2) (omega arith))

mask_1 : (a : ℕ) → bit_and a 1 ≡ a % 2
mask_1 a = omega (arith, bit_and_halves a 1, bit_and_none (a / 2) (a / 2) (omega arith))

mask_3 : (a : ℕ) → bit_and a 3 ≡ a % 4
mask_3 a = omega (arith, bit_and_halves a 3, mask_1 (a / 2))

pub mask_7 : (a : ℕ) → bit_and a 7 ≡ a % 8
mask_7 a = omega (arith, bit_and_halves a 7, mask_3 (a / 2))

pub mask_63 : (a : ℕ) → bit_and a 63 ≡ a % 64
mask_63 a = omega (
  arith,
  bit_and_halves a 63,
  bit_and_halves (a / 2) 31,
  bit_and_halves (a / 2 / 2) 15,
  mask_7 (a / 2 / 2 / 2),
)

mask_4 : (a : ℕ) → bit_and a 4 ≡ 4 * (a / 4 % 2)
mask_4 a = omega (arith, bit_and_halves a 4, bit_and_halves (a / 2) 2, mask_1 (a / 2 / 2))

pub mask_8 : (a : ℕ) → bit_and a 8 ≡ 8 * (a / 8 % 2)
mask_8 a = omega (arith, bit_and_halves a 8, mask_4 (a / 2))

pub mask_16 : (a : ℕ) → bit_and a 16 ≡ 16 * (a / 16 % 2)
mask_16 a = omega (arith, bit_and_halves a 16, mask_8 (a / 2))

pub mask_32 : (a : ℕ) → bit_and a 32 ≡ 32 * (a / 32 % 2)
mask_32 a = omega (arith, bit_and_halves a 32, mask_16 (a / 2))

or_double : (a b : ℕ) → bit_or (2 * a) b ≡ 2 * bit_or a (b / 2) + b % 2
or_double a b = omega (arith, rw (half a) at (bit_or_halves (2 * a) b))
  where
    half : (m : ℕ) → 2 * m / 2 ≡ m
    half m = omega arith

-- A multiple of `m`, joined with a number below `m`, is their sum; `m` runs through powers of two.
abbrev JoinsBelow : ℕ → ℕ → Type 0
JoinsBelow a m = (b : ℕ) → b < m → bit_or (m * a) b ≡ m * a + b

joins_double : (a m : ℕ) → JoinsBelow a m → JoinsBelow a (2 * m)
joins_double a m below b h =
    rw (mul_assoc 2 m a) (omega (arith, or_double (m * a) b, below (b / 2) (omega arith)))

joins_one : (a : ℕ) → JoinsBelow a 1
joins_one a zero h = rw (one-mul a) (omega (arith, bit_or_none a a (omega arith)))
joins_one a (suc b) h = absurd (omega arith)

pub bit_or-byte : (hi lo : ℕ) → lo < 256 → bit_or (256 * hi) lo ≡ 256 * hi + lo
bit_or-byte hi =
    let d = joins_double hi in d 128 (d 64 (d 32 (d 16 (d 8 (d 4 (d 2 (d 1 (joins_one hi))))))))
