-- ===== src/Lsof/Row/Letter.antt =====
-- The letter behind a descriptor (hw1/hw1.c), and the permissions of the owner that it stands for.
use mathlib.Core.List.{append-nil}
use nctu_unix.Base.{
  ℕ, zero, suc, ◌+◌, ◌*◌, ◌/◌, ◌%◌, ◌<◌, ◌≡◌, refl, sym, Bool, ◌==◌, if◌then◌else◌, [], ◌++◌, arith,
  codes,
}
use nctu_unix.Base.Masks.{and_owner}
use nctu_unix.Lsof.Options.{Text}
use nctu_unix.Lsof.Row.{descriptor}

-- The bits r and w of the owner: the digits of weight 2 ^ 8 and 2 ^ 7.
abbrev pub owner_reads : ℕ → Bool
owner_reads st_mode = st_mode / 256 % 2 == 1

abbrev pub owner_writes : ℕ → Bool
owner_writes st_mode = st_mode / 128 % 2 == 1

-- u for both, r or w for one, nothing for none.
abbrev pub owner_letter : Bool → Bool → Text
owner_letter reads writes =
    if reads then (if writes then codes "u" else codes "r") else if writes then codes "w" else []

of_bits :
    (name : Text) (r w : ℕ)
    → r < 2
    → w < 2
    → (if r * 256 + w * 128 == 0o600
        then name ++ codes "u"
        else if r * 256 + w * 128 == 0o400
        then name ++ codes "r"
        else if r * 256 + w * 128 == 0o200
        then name ++ codes "w"
        else name)
      ≡ name ++ owner_letter (r == 1) (w == 1)
of_bits name zero zero h k = sym (append-nil name)
of_bits name zero (suc zero) h k = refl
of_bits name (suc zero) zero h k = refl
of_bits name (suc zero) (suc zero) h k = refl
of_bits name zero (suc (suc w)) h k = absurd (omega (arith, k))
of_bits name (suc zero) (suc (suc w)) h k = absurd (omega (arith, k))
of_bits name (suc (suc r)) w h k = absurd (omega (arith, h))

pub descriptor-owner_letter :
    (name : Text) (m : ℕ)
    → descriptor name m ≡ name ++ owner_letter (owner_reads m) (owner_writes m)
unfolding descriptor
descriptor-owner_letter name m =
    rw (descriptor, and_owner m)
      (of_bits name (m / 256 % 2) (m / 128 % 2) (omega arith) (omega arith))
