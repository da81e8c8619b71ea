-- ===== src/Libmini/Strings.antt =====
-- `bzero`, `strlen` and `memset` of hw3/libmini.c, over the byte memory.
pub mod Fill
pub mod Length
use nctu_unix.Base.{ℕ, zero, suc, ◌+◌, ◌-◌, ◌%◌, ◌==◌, Bool, true, false, Option, none, some}
use nctu_unix.Base.{ℤ, pos, negsuc}
use nctu_unix.Base.Memory.{Memory, update}
use nctu_unix.Libmini.Machine.{M, pure, ◌>>=◌, ◌>>◌, set_memory}

-- The conversion of an `int` to `unsigned char`.
abbrev pub low8 : ℤ → ℕ
low8 (pos n) = n % 256
low8 (negsuc n) = 255 - n % 256

-- `while (size-- > 0) *ptr++ = '\0';`. The count is signed, and one below 0 writes nothing.
pub bzero_loop : ℕ → ℤ → Memory → Memory
bzero_loop ptr (negsuc n) m = m
bzero_loop ptr (pos zero) m = m
bzero_loop ptr (pos (suc n)) m = bzero_loop (ptr + 1) (pos n) (update m ptr 0)

pub bzero : ℕ → ℤ → M (Unit {0})
unfolding bzero_loop
bzero s size = set_memory (bzero_loop s size)

-- `while (len-- > 0) *ptr++ = val;`.
unfoldable pub memset_loop : ℕ → ℤ → ℤ → Memory → Memory
memset_loop ptr val (negsuc n) m = m
memset_loop ptr val (pos zero) m = m
memset_loop ptr val (pos (suc n)) m = memset_loop (ptr + 1) val (pos n) (update m ptr (low8 val))

unfoldable pub memset : ℕ → ℤ → ℤ → M ℕ
memset dest val len = set_memory (memset_loop dest val len) >> pure dest

-- `while (*s++) count++;`, on fuel; `none` means that the fuel ran out.
pub strlen_loop : ℕ → Memory → ℕ → ℕ → Option ℕ
strlen_loop zero m s count = none
strlen_loop (suc fuel) m s count = elim (m s == 0) [
  | true ↦ some count
  | false ↦ strlen_loop fuel m (s + 1) (count + 1)
]

pub strlen : ℕ → Memory → ℕ → Option ℕ
unfolding strlen_loop
strlen fuel m s = strlen_loop fuel m s 0
