-- ===== src/Libmini/Sigset.antt =====
-- Signal sets, `sigset_t` of hw3/libmini.h: one word of 64 bits, bit s - 1 for signal s.
pub mod Word
pub mod Laws
pub mod Errors
use Prim.Native.Nat.{◌^◌}
use nctu_unix.Base.{
  ℕ, zero, suc, ◌-◌, bit_and, bit_or, Bool, ◌||◌, ◌==◌, if◌then◌else◌, ℤ, pos, negsuc, leb_ℤ,
}
use nctu_unix.Base.Memory.{load64, store64}
use nctu_unix.Libmini.Machine.{M, pure, ◌>>=◌, ◌>>◌, set_errno, set_memory, memory}
use nctu_unix.Libmini.Strings.{memset}

abbrev pub einval : ℤ
einval = pos 22

abbrev pub nsig : ℤ
nsig = pos 65

-- `((unsigned long int)1) << (sig - 1)`; the callers keep `sig` from 1 to 64.
abbrev pub sigmask : ℤ → ℕ
sigmask (pos zero) = 0
sigmask (pos (suc n)) = 2 ^ n
sigmask (negsuc n) = 0

-- `~`, on an `unsigned long`.
abbrev pub complement64 : ℕ → ℕ
complement64 v = 2 ^ 64 - 1 - v

-- `set == NULL || signo <= 0 || signo >= NSIG`.
abbrev pub bad_argument : ℕ → ℤ → Bool
bad_argument set signo = set == 0 || leb_ℤ signo (pos 0) || leb_ℤ nsig signo

abbrev invalid : M ℤ
invalid = set_errno einval >> pure (negsuc 0)

pub sigemptyset : ℕ → M ℤ
sigemptyset set = if set == 0 then invalid else do _ ← memset set (pos 0) (pos 8); pure (pos 0)

pub sigfillset : ℕ → M ℤ
sigfillset set = if set == 0 then invalid else do _ ← memset set (pos 0xff) (pos 8); pure (pos 0)

pub sigaddset : ℕ → ℤ → M ℤ
sigaddset set signo =
    if bad_argument set signo
    then invalid
    else set_memory (λ m. store64 m set (bit_or (load64 m set) (sigmask signo))) >> pure (pos 0)

pub sigdelset : ℕ → ℤ → M ℤ
sigdelset set signo =
    if bad_argument set signo
    then invalid
    else set_memory (λ m. store64 m set (bit_and (load64 m set) (complement64 (sigmask signo))))
      >> pure (pos 0)

pub sigismember : ℕ → ℤ → M ℤ
sigismember set signo =
    if bad_argument set signo
    then invalid
    else do m ← memory; pure (if bit_and (load64 m set) (sigmask signo) == 0 then pos 0 else pos 1)
