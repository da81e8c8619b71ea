-- ===== src/Base/Numbers.antt =====
-- Numbers written in text, as `atoi` and `strtoul` of the C library read them.
pub mod Decimal
use Prim.Native.Nat.{ℕ, zero, suc, ◌+◌, ◌-◌, ◌*◌, ◌/◌, ◌%◌}
use mathlib.Core.Bool.{Bool, ◌&&◌, ◌||◌}
use mathlib.Core.Option.{Option, none, some}
use mathlib.Core.List.{List, [], ◌∷◌}
use nctu_unix.Base.Tests.{leb, ltb, ◌==◌, if◌then◌else◌}
use nctu_unix.Base.Int.{ℤ, pos, neg}

-- `isprint` and `isspace` in the C locale.
abbrev pub is_print : ℕ → Bool
is_print c = leb 32 c && leb c 126

abbrev pub is_space : ℕ → Bool
is_space c = c == 32 || (leb 9 c && leb c 13)

-- The value of a digit, up to base 16.
abbrev pub digit_value : ℕ → Option ℕ
digit_value c =
    if leb b'0' c && leb c b'9'
    then some (c - b'0')
    else if leb b'a' c && leb c b'f'
    then some (c - b'a' + 10)
    else if leb b'A' c && leb c b'F'
    then some (c - b'A' + 10)
    else none

pub drop_spaces : List ℕ → List ℕ
drop_spaces [] = []
drop_spaces (c ∷ s) = if is_space c then drop_spaces s else c ∷ s

-- The number that the leading digits of the text make, behind `acc`.
unfoldable pub leading : ℕ → ℕ → List ℕ → ℕ
leading base acc [] = acc
leading base acc (c ∷ s) = elim (digit_value c) [
  | none ↦ acc
  | some d ↦ if ltb d base then leading base (acc * base + d) s else acc
]

pub signed_number : List ℕ → ℤ
unfolding leading
signed_number [] = pos 0
signed_number (c ∷ s) =
    if c == b'-'
    then neg (pos (leading 10 0 s))
    else pos (leading 10 0 (if c == b'+' then s else c ∷ s))

-- `atoi`; a value that an `int` cannot hold is undefined in C, and is kept as it is here.
unfoldable pub atoi : List ℕ → ℤ
unfolding signed_number drop_spaces
atoi s = signed_number (drop_spaces s)

-- "%d" and "%ld", of what is not negative.
pub digits : ℕ → ℕ → List ℕ → List ℕ
digits zero n text = text
digits (suc fuel) n text =
    let rest = digits fuel (n / 10) ((n % 10 + b'0') ∷ text) in
    if n / 10 == 0 then (n % 10 + b'0') ∷ text else rest

-- A number has no more digits than it has units.
unfoldable pub decimal : ℕ → List ℕ
unfolding digits
decimal n = digits (suc n) n []
