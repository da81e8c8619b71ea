-- ===== src/Base/Bits.antt =====
-- Binary digits of a word: the bit operations of C, digit by digit, at every position.
use Prim.Native.Nat.{
  ℕ, zero, suc, ◌+◌, ◌-◌, ◌*◌, ◌/◌, ◌%◌, ◌^◌, ◌≤◌, ◌<◌, min, max, bit_and, bit_or, digits, bitwise,
  bit_and-bitwise, bit_or-bitwise,
}
use mathlib.Core.Path.{◌≡◌, refl, ap, ◌∙◌}
use mathlib.Core.Logic.{◌⊎◌, inl, inr}
use native.Mathlib.Nat.{le_refl, pow-suc}
use native.Mathlib.Omega.{arith}
use nctu_unix.Base.Tests.{◌==◌, if◌then◌else◌}

-- The digit of weight 2 ^ k.
abbrev pub bit : ℕ → ℕ → ℕ
bit a zero = a % 2
bit a (suc k) = bit (a / 2) k

-- Behind the native operations stands the library's recursion `digits`, on a bound for the first
-- operand. Any bound that is large enough gives the same digits, so one law fits all positions.
module _ (on_zero : ℕ → ℕ) (digit : ℕ → ℕ → ℕ) where
  abbrev bounded : ℕ → ℕ → ℕ → ℕ
  bounded = digits on_zero digit

  one_more : (n a b : ℕ) → a ≤ n → bounded (suc n) a b ≡ bounded n a b
  one_more zero zero b small = refl
  one_more zero (suc a) b small = absurd (omega arith)
  one_more (suc n) zero b small = refl
  one_more (suc n) (suc a) b small =
      ap (λ (high : ℕ). high * 2 + digit (suc a % 2) (b % 2))
        (one_more n (suc a / 2) (b / 2) (omega arith))

  up_to : (n m a b : ℕ) → a ≤ m → m ≤ n → bounded n a b ≡ bounded m a b
  up_to zero m a b small below = let none_left : m ≡ 0 = omega arith in rw none_left
  up_to (suc n) m a b small below = elim (split n m below) [
    | inl lower ↦ one_more n a b (omega arith) ∙ up_to n m a b small lower
    | inr same ↦ rw same
  ]
    where
      split : (n m : ℕ) → m ≤ suc n → (m ≤ n) ⊎ (m ≡ suc n)
      split n m h = omega arith

  lowest_digit :
      (a b : ℕ)
      → bitwise on_zero digit (suc a) b
        ≡ bitwise on_zero digit (suc a / 2) (b / 2) * 2 + digit (suc a % 2) (b % 2)
  lowest_digit a b =
      ap (λ (high : ℕ). high * 2 + digit (suc a % 2) (b % 2))
        (up_to a (suc a / 2) (suc a / 2) (b / 2) (omega arith) (omega arith))

pub or_digit : (a b : ℕ) → bit_or a b ≡ bit_or (a / 2) (b / 2) * 2 + max (a % 2) (b % 2)
or_digit zero b = rw (bit_or-bitwise 0 b, bit_or-bitwise 0 (b / 2)) (omega arith)
or_digit (suc a) b =
    rw (bit_or-bitwise (suc a) b, bit_or-bitwise (suc a / 2) (b / 2))
      (lowest_digit (λ y. y) max a b)

pub and_digit : (a b : ℕ) → bit_and a b ≡ bit_and (a / 2) (b / 2) * 2 + min (a % 2) (b % 2)
and_digit zero b = rw (bit_and-bitwise 0 b, bit_and-bitwise 0 (b / 2)) (omega arith)
and_digit (suc a) b =
    rw (bit_and-bitwise (suc a) b, bit_and-bitwise (suc a / 2) (b / 2))
      (lowest_digit (λ y. 0) min a b)

pub zero-bit_or : (b : ℕ) → bit_or 0 b ≡ b
zero-bit_or b = simp bit_or-bitwise

half_or : (a b : ℕ) → bit_or a b / 2 ≡ bit_or (a / 2) (b / 2)
half_or a b = omega (arith, or_digit a b)

half_and : (a b : ℕ) → bit_and a b / 2 ≡ bit_and (a / 2) (b / 2)
half_and a b = omega (arith, and_digit a b)

pub bit-bit_or : (a b k : ℕ) → bit (bit_or a b) k ≡ max (bit a k) (bit b k)
bit-bit_or a b zero = omega (arith, or_digit a b)
bit-bit_or a b (suc k) = rw half_or (bit-bit_or (a / 2) (b / 2) k)

pub bit-bit_and : (a b k : ℕ) → bit (bit_and a b) k ≡ min (bit a k) (bit b k)
bit-bit_and a b zero = omega (arith, and_digit a b)
bit-bit_and a b (suc k) = rw half_and (bit-bit_and (a / 2) (b / 2) k)

pub bit-lt-two : (a k : ℕ) → bit a k < 2
bit-lt-two a zero = omega arith
bit-lt-two a (suc k) = bit-lt-two (a / 2) k

pub bit-zero : (k : ℕ) → bit 0 k ≡ 0
bit-zero zero = refl
bit-zero (suc k) = bit-zero k

half_pow : (j : ℕ) → 2 ^ suc j / 2 ≡ 2 ^ j
half_pow j = omega (arith, pow-suc 2 j)

-- A power of two has one digit.
pub bit-pow : (j k : ℕ) → bit (2 ^ j) k ≡ (if j == k then 1 else 0)
bit-pow zero zero = refl
bit-pow zero (suc k) = ground (arith, bit-zero k)
bit-pow (suc j) zero = ground (arith, pow-suc 2 j)
bit-pow (suc j) (suc k) = rw (half_pow j, bit-pow j k) (ground arith)

-- The complement of a w-bit word.
pub bit-complement : (w a k : ℕ) → a < 2 ^ w → k < w → bit (2 ^ w - 1 - a) k ≡ 1 - bit a k
bit-complement zero a k h l = absurd (omega arith)
bit-complement (suc w) a zero h l = omega (arith, pow-suc 2 w)
bit-complement (suc w) a (suc k) h l =
    rw (half w a h) (bit-complement w (a / 2) k (omega (arith, pow-suc 2 w)) (omega arith))
  where
    half : (w a : ℕ) → a < 2 ^ suc w → (2 ^ suc w - 1 - a) / 2 ≡ 2 ^ w - 1 - a / 2
    half w a h = omega (arith, pow-suc 2 w)

-- With 0 nothing is left; n bounds the digits that are looked at.
pub and_none : (n v : ℕ) → v ≤ n → bit_and v 0 ≡ 0
and_none n zero small = refl
and_none zero (suc v) small = absurd (omega arith)
and_none (suc n) (suc v) small =
    omega (arith, and_digit (suc v) 0, and_none n (suc v / 2) (omega arith))

-- `v & (1 << j)` is the digit, in its place.
pub bit_and-pow : (v j : ℕ) → bit_and v (2 ^ j) ≡ bit v j * 2 ^ j
bit_and-pow v zero = omega (arith, and_digit v 1, and_none (v / 2) (v / 2) (le_refl _))
bit_and-pow v (suc j) = omega (
  arith,
  and_digit v (2 ^ suc j),
  half_pow j,
  pow-suc 2 j,
  ap (λ (t : ℕ). bit_and (v / 2) t) (half_pow j),
  bit_and-pow (v / 2) j,
  ap (λ (t : ℕ). bit (v / 2) j * t) (pow-suc 2 j),
)

-- `a | b` stays within the width of its operands.
pub bit_or-lt : (w a b : ℕ) → a < 2 ^ w → b < 2 ^ w → bit_or a b < 2 ^ w
bit_or-lt zero a b p q = rw (zero_of a p, zero_of b q) (omega arith)
  where
    zero_of : (n : ℕ) → n < 1 → n ≡ 0
    zero_of n h = omega arith
bit_or-lt (suc w) a b p q = omega (
  arith,
  or_digit a b,
  pow-suc 2 w,
  bit_or-lt w (a / 2) (b / 2) (omega (arith, pow-suc 2 w)) (omega (arith, pow-suc 2 w)),
)

pub bit_and-le : (n a b : ℕ) → a ≤ n → bit_and a b ≤ a
bit_and-le n zero b h = omega (arith, bit_and-bitwise 0 b)
bit_and-le zero (suc a) b h = absurd (omega arith)
bit_and-le (suc n) (suc a) b h =
    omega (arith, and_digit (suc a) b, bit_and-le n (suc a / 2) (b / 2) (omega arith))
