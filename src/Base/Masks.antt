-- ===== src/Base/Masks.antt =====
-- Masks that C programs apply to words: the low bits, and one byte put in place of the lowest.
use Prim.Native.Nat.{ℕ, zero, suc, ◌+◌, ◌-◌, ◌*◌, ◌/◌, ◌%◌, ◌^◌, ◌≤◌, ◌<◌, bit_and, bit_or}
use mathlib.Core.Path.{◌≡◌, refl, ap}
use native.Mathlib.Nat.{le_refl, pow-suc, one-le-pow}
use native.Mathlib.Omega.{arith}
use nctu_unix.Base.Bits.{and_digit, or_digit, and_none}

halve : (m : ℕ) → m * 2 / 2 ≡ m
halve m = omega arith

halve_odd : (m : ℕ) → (m * 2 + 1) / 2 ≡ m
halve_odd m = omega arith

-- A mask with one more digit, of value 0 or 1, below those of `m`.
and_one : (a m : ℕ) → bit_and a (m * 2 + 1) ≡ bit_and (a / 2) m * 2 + a % 2
and_one a m =
    omega (arith, and_digit a (m * 2 + 1), ap (λ (t : ℕ). bit_and (a / 2) t) (halve_odd m))

and_double : (a m : ℕ) → bit_and a (m * 2) ≡ bit_and (a / 2) m * 2
and_double a m = omega (arith, and_digit a (m * 2), ap (λ (t : ℕ). bit_and (a / 2) t) (halve m))

or_double : (x m : ℕ) → bit_or (x * 2) (m * 2) ≡ bit_or x m * 2
or_double x m = omega (
  arith,
  or_digit (x * 2) (m * 2),
  ap (λ (t : ℕ). bit_or t (m * 2 / 2)) (halve x),
  ap (λ (t : ℕ). bit_or x t) (halve m),
)

pub or_none : (n v : ℕ) → v ≤ n → bit_or v 0 ≡ v
or_none n zero small = refl
or_none zero (suc v) small = absurd (omega arith)
or_none (suc n) (suc v) small =
    omega (arith, or_digit (suc v) 0, or_none n (suc v / 2) (omega arith))

-- `v & 0xff`.
pub and_byte : (a : ℕ) → bit_and a 0xff ≡ a % 256
and_byte a = omega (
  arith,
  and_one a 127,
  and_one (a / 2) 63,
  and_one (a / 2 / 2) 31,
  and_one (a / 2 / 2 / 2) 15,
  and_one (a / 2 / 2 / 2 / 2) 7,
  and_one (a / 2 / 2 / 2 / 2 / 2) 3,
  and_one (a / 2 / 2 / 2 / 2 / 2 / 2) 1,
  and_one (a / 2 / 2 / 2 / 2 / 2 / 2 / 2) 0,
  and_none (a / 2 / 2 / 2 / 2 / 2 / 2 / 2 / 2) (a / 2 / 2 / 2 / 2 / 2 / 2 / 2 / 2) (le_refl _),
)

mask_suc : (k : ℕ) → 2 ^ suc k - 1 ≡ (2 ^ k - 1) * 2 + 1
mask_suc k = omega (arith, pow-suc 2 k, one-le-pow k 2 (omega arith))

pub and_all : (k a : ℕ) → a < 2 ^ k → bit_and a (2 ^ k - 1) ≡ a
and_all zero a h = omega (arith, and_none a a (le_refl a))
and_all (suc k) a h =
    rw (mask_suc k, and_one a (2 ^ k - 1), and_all k (a / 2) (omega (arith, pow-suc 2 k)))
      (omega arith)

-- `v & 0xffffffffffffff00`.
pub and_high : (a : ℕ) → a < 2 ^ 64 → bit_and a 0xffff_ffff_ffff_ff00 ≡ a / 256 * 256
and_high a h = omega (
  arith,
  and_double a 0x7fff_ffff_ffff_ff80,
  and_double (a / 2) 0x3fff_ffff_ffff_ffc0,
  and_double (a / 2 / 2) 0x1fff_ffff_ffff_ffe0,
  and_double (a / 2 / 2 / 2) 0x0fff_ffff_ffff_fff0,
  and_double (a / 2 / 2 / 2 / 2) 0x07ff_ffff_ffff_fff8,
  and_double (a / 2 / 2 / 2 / 2 / 2) 0x03ff_ffff_ffff_fffc,
  and_double (a / 2 / 2 / 2 / 2 / 2 / 2) 0x01ff_ffff_ffff_fffe,
  and_double (a / 2 / 2 / 2 / 2 / 2 / 2 / 2) 0x00ff_ffff_ffff_ffff,
  and_all 56 (a / 2 / 2 / 2 / 2 / 2 / 2 / 2 / 2) (omega arith),
)

or_one : (x m : ℕ) → bit_or (x * 2) (m * 2 + 1) ≡ bit_or x m * 2 + 1
or_one x m = omega (
  arith,
  or_digit (x * 2) (m * 2 + 1),
  ap (λ (t : ℕ). bit_or t ((m * 2 + 1) / 2)) (halve x),
  ap (λ (t : ℕ). bit_or x t) (halve_odd m),
)

eight_doublings : (x : ℕ) → x * 256 ≡ x * 2 * 2 * 2 * 2 * 2 * 2 * 2 * 2
eight_doublings x = omega arith

-- `| 0xcc`, where the lowest byte is 0.
pub or_int3 : (x : ℕ) → bit_or (x * 256) 0xcc ≡ x * 256 + 0xcc
or_int3 x = omega (
  arith,
  ap (λ (t : ℕ). bit_or t 0xcc) (eight_doublings x),
  or_double (x * 2 * 2 * 2 * 2 * 2 * 2 * 2) 102,
  or_double (x * 2 * 2 * 2 * 2 * 2 * 2) 51,
  or_one (x * 2 * 2 * 2 * 2 * 2) 25,
  or_one (x * 2 * 2 * 2 * 2) 12,
  or_double (x * 2 * 2 * 2) 6,
  or_double (x * 2 * 2) 3,
  or_one (x * 2) 1,
  or_one x 0,
  or_none x x (le_refl x),
)

-- `v & 0600`.
pub and_owner : (a : ℕ) → bit_and a 0o600 ≡ a / 256 % 2 * 256 + a / 128 % 2 * 128
and_owner a = omega (
  arith,
  and_double a 192,
  and_double (a / 2) 96,
  and_double (a / 2 / 2) 48,
  and_double (a / 2 / 2 / 2) 24,
  and_double (a / 2 / 2 / 2 / 2) 12,
  and_double (a / 2 / 2 / 2 / 2 / 2) 6,
  and_double (a / 2 / 2 / 2 / 2 / 2 / 2) 3,
  and_one (a / 2 / 2 / 2 / 2 / 2 / 2 / 2) 1,
  and_one (a / 2 / 2 / 2 / 2 / 2 / 2 / 2 / 2) 0,
  and_none (a / 2 / 2 / 2 / 2 / 2 / 2 / 2 / 2 / 2) (a / 2 / 2 / 2 / 2 / 2 / 2 / 2 / 2 / 2)
      (le_refl _),
)
