-- ===== src/Libmini/Sigset/Word.antt =====
-- The bits of the word of a signal set of hw3/libmini.c.
use Prim.Native.Nat.{ℕ, zero, suc, ◌^◌, ◌<◌, ◌≤◌}
use native.Mathlib.Nat.{one-le-pow, pow-le-pow_right}
use nctu_unix.Base.{bit_and, bit_or, ◌≡◌, refl, ◌≢◌, ◌∙◌, arith, false, ◌==◌}
use nctu_unix.Base.{if◌then◌else◌, ℤ, pos, negsuc, ◌⊎◌, inl, inr}
use nctu_unix.Base.Bits.{
  bit, bit-bit_or, bit-bit_and, bit-lt-two, bit-pow, bit-complement, bit_and-pow,
}
use nctu_unix.Libmini.Sigset.{bad_argument, complement64}

-- The signals that a set can hold, at a set that is there.
pub record IsGood (set : ℕ) (signo : ℤ) : Type 0 where
  pub index : ℕ
  pub signal_of : signo ≡ pos (suc index)
  pub in_range : index < 64
  pub present : set ≢ 0

pub good : (set : ℕ) (signo : ℤ) → bad_argument set signo ≡ false → IsGood set signo
good set (pos zero) h = absurd (ground arith)
good set (pos (suc n)) h = record {
  index = n;
  signal_of = refl;
  in_range = ground arith;
  present = λ e. ground arith;
}
good set (negsuc n) h = absurd (ground arith)

-- Whether the word v has signal n + 1.
abbrev pub has : ℕ → ℕ → ℤ
has v n = if bit v n == 0 then pos 0 else pos 1

pow_pos : (n : ℕ) → 1 ≤ 2 ^ n
pow_pos n = one-le-pow n 2 (omega arith)

pub pow_lt : (n : ℕ) → n < 64 → 2 ^ n < 2 ^ 64
pow_lt n h = omega (arith, pow-le-pow_right {n = 2} (omega arith) {i = n} {j = 63} (omega arith))

bit_cases : (v n : ℕ) → (bit v n ≡ 0) ⊎ (bit v n ≡ 1)
bit_cases v n = omega (arith, bit-lt-two v n)

pub tested : (v n : ℕ) → (if bit_and v (2 ^ n) == 0 then pos 0 else pos 1) ≡ has v n
tested v n = elim (bit_cases v n) [
  | inl e ↦
      ground (arith, e, let p : bit_and v (2 ^ n) ≡ 0 = bit_and-pow v n ∙ rw e (omega arith) in p)
  | inr e ↦ ground (
    arith,
    e,
    pow_pos n,
    let p : bit_and v (2 ^ n) ≡ 2 ^ n = bit_and-pow v n ∙ rw e (omega arith) in p,
  )
]

pub has-add : (v n j : ℕ) → has (bit_or v (2 ^ n)) j ≡ (if n == j then pos 1 else has v j)
has-add v n j = ground (arith, bit-bit_or v (2 ^ n) j, bit-pow n j, bit-lt-two v j)

pub has-del :
    (v n j : ℕ)
    → n < 64
    → j < 64
    → has (bit_and v (complement64 (2 ^ n))) j ≡ (if n == j then pos 0 else has v j)
has-del v n j hn hj = ground (
  arith,
  bit-bit_and v (complement64 (2 ^ n)) j,
  bit-complement 64 (2 ^ n) j (pow_lt n hn) hj,
  bit-pow n j,
  bit-lt-two v j,
)
