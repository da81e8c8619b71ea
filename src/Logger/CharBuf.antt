-- ===== src/Logger/CharBuf.antt =====
-- What `charBuf` of hw2/hw2_so.c shows of a buffer.
use nctu_unix.Base.{ℕ, zero, suc, ◌+◌, ◌≤◌, ◌≡◌, arith, true, ◌==◌}
use nctu_unix.Base.{if◌then◌else◌, List, [], ◌∷◌, length}
use nctu_unix.Base.Memory.{Memory}
use nctu_unix.Base.Numbers.{is_print}
use nctu_unix.Logger.Log.{char_buf, char_buf_loop}

-- The bytes in front of the first NUL.
abbrev pub until_nul : List ℕ → List ℕ
until_nul [] = []
until_nul (c ∷ s) = if c == 0 then [] else c ∷ until_nul s

abbrev pub dotted : ℕ → ℕ
dotted c = if is_print c then c else b'.'

abbrev pub AllPrint : List ℕ → Type 0
AllPrint [] = Unit {0}
AllPrint (c ∷ s) = (is_print c ≡ true) × AllPrint s

loop_fits :
    (n : ℕ) (m : Memory) (p : ℕ)
    → (length (char_buf_loop n m p) ≤ n) × AllPrint (char_buf_loop n m p)
unfolding char_buf_loop
loop_fits zero m p = (omega arith, tt)
loop_fits (suc n) m p = ground (arith, loop_fits n m (p + 1))

-- Whatever the memory holds, the text that `charBuf` gives fits its buffer of 32 bytes with the
-- NUL behind it, and all its bytes are printable.
pub char_buf_fits : (m : Memory) (p : ℕ) → (length (char_buf m p) ≤ 31) × AllPrint (char_buf m p)
unfolding char_buf
char_buf_fits m p = loop_fits 31 m p
