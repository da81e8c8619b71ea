-- ===== src/Libmini/Wrappers/Reply.antt =====
-- What a caller of the wrappers of hw3/libmini.c may rely on, for all of them at once.
use nctu_unix.Base.{ℕ, suc, ◌-◌, ◌^◌, ◌<◌, ◌≡◌, refl, false, ◌∷◌, arith}
use nctu_unix.Base.{ℤ, pos, negsuc, neg, false, is_negative, if◌then◌else◌}
use nctu_unix.Libmini.Machine.{Syscall, Kernel, Machine, M, ◌>>=◌, syscall, answer}
use nctu_unix.Libmini.Machine.{
  sys_open, sys_exit, sys_rt_sigaction, sys_read, sys_write, sys_close, sys_mmap, sys_mprotect,
  sys_munmap, sys_pipe, sys_dup, sys_dup2, sys_pause, sys_nanosleep, sys_fork, sys_getcwd,
  sys_chdir, sys_rename, sys_mkdir, sys_rmdir, sys_creat, sys_link, sys_unlink, sys_readlink,
  sys_chmod, sys_chown, sys_umask, sys_gettimeofday, sys_getuid, sys_getgid, sys_setuid, sys_setgid,
  sys_geteuid, sys_getegid,
}
use nctu_unix.Libmini.Machine.{sys_rt_sigprocmask, sys_rt_sigpending, sys_alarm}
use nctu_unix.Libmini.Signal.{sigprocmask, sigpending, alarm}
use nctu_unix.Libmini.Wrappers.{CType, ssize_t, int, pid_t, uid_t, unsigned_int}
use nctu_unix.Libmini.Wrappers.{convert, wrapper_retval}
use nctu_unix.Libmini.Wrappers.{
  open_path, read, write, close, mmap, mprotect, munmap, pipe, dup, dup2, pause, nanosleep, fork,
  getcwd, chdir, rename, mkdir, rmdir, creat, link, unlink, readlink, chmod, chown, umask,
  gettimeofday, getuid, getgid, setuid, setgid, geteuid, getegid,
}

-- The result type that libmini.h gives the wrapper of a call.
pub data Prototype : Type 0 where
  value : CType → Prototype
  pointer : Prototype

unfoldable pub prototype : Syscall → Prototype
prototype (sys_mmap _ _ _ _ _ _) = pointer
prototype (sys_getcwd _ _) = pointer
prototype (sys_read _ _ _) = value ssize_t
prototype (sys_write _ _ _) = value ssize_t
prototype sys_fork = value pid_t
prototype (sys_readlink _ _ _) = value ssize_t
prototype sys_getuid = value uid_t
prototype sys_getgid = value uid_t
prototype sys_geteuid = value uid_t
prototype sys_getegid = value uid_t
prototype (sys_alarm _) = value unsigned_int
prototype _ = value int

-- The wrapper that issues a call. `sigaction` changes memory first and `exit` has no result.
pub wrapper : Kernel → Syscall → M ℤ
wrapper k (sys_read a b c) = read k a b c
wrapper k (sys_write a b c) = write k a b c
wrapper k (sys_close a) = close k a
wrapper k (sys_mmap a b c d e f) = do p ← mmap k a b c d e f; (λ m. (pos p, m))
wrapper k (sys_mprotect a b c) = mprotect k a b c
wrapper k (sys_munmap a b) = munmap k a b
wrapper k (sys_pipe a) = pipe k a
wrapper k (sys_dup a) = dup k a
wrapper k (sys_dup2 a b) = dup2 k a b
wrapper k sys_pause = pause k
wrapper k (sys_nanosleep a b) = nanosleep k a b
wrapper k sys_fork = fork k
wrapper k (sys_getcwd a b) = do p ← getcwd k a b; (λ m. (pos p, m))
wrapper k (sys_chdir a) = chdir k a
wrapper k (sys_rename a b) = rename k a b
wrapper k (sys_mkdir a b) = mkdir k a b
wrapper k (sys_rmdir a) = rmdir k a
wrapper k (sys_creat a b) = creat k a b
wrapper k (sys_link a b) = link k a b
wrapper k (sys_unlink a) = unlink k a
wrapper k (sys_readlink a b c) = readlink k a b c
wrapper k (sys_chmod a b) = chmod k a b
wrapper k (sys_chown a b c) = chown k a b c
wrapper k (sys_umask a) = umask k a
wrapper k (sys_gettimeofday a b) = gettimeofday k a b
wrapper k sys_getuid = getuid k
wrapper k sys_getgid = getgid k
wrapper k (sys_setuid a) = setuid k a
wrapper k (sys_setgid a) = setgid k a
wrapper k sys_geteuid = geteuid k
wrapper k sys_getegid = getegid k
wrapper k (sys_open a b c) = open_path k a b c
wrapper k (sys_rt_sigprocmask a b c d) = sigprocmask k a b c
wrapper k (sys_rt_sigpending a b) = sigpending k a
wrapper k (sys_alarm a) = alarm k a
wrapper k _ = λ m. (pos 0, m)

-- `exit` and `sigaction` are left out, and the two calls on masks pass the size of the set.
abbrev pub Wraps : Syscall → Type 0
Wraps (sys_rt_sigaction _ _ _ _) = ⊥
Wraps (sys_exit _) = ⊥
Wraps (sys_rt_sigprocmask _ _ _ size) = size ≡ pos 8
Wraps (sys_rt_sigpending _ size) = size ≡ pos 8
Wraps _ = Unit

-- What a wrapper returns on an error.
abbrev pub failure : Prototype → ℤ
failure pointer = pos 0
failure (value unsigned_int) = pos (2 ^ 32 - 1)
failure (value _) = negsuc 0

-- The answers that the result type can hold.
abbrev pub Fits : Prototype → ℕ → Type 0
Fits pointer r = r < 2 ^ 63
Fits (value ssize_t) r = r < 2 ^ 63
Fits (value unsigned_int) r = r < 2 ^ 32
Fits (value _) r = r < 2 ^ 31

-- The machine after one call, with `errno` as given.
abbrev pub called : Kernel → Syscall → Machine → ℤ → Machine
called k c m e = record {
  memory = (k m.calls c m.memory).1;
  errno = e;
  calls = record { call = c; seen = m.memory } ∷ m.calls;
}

-- `WRAPPER_RETval(int)` at an answer that an `int` can hold.
pub int_reply :
    (r : ℤ) (m : Machine)
    → ((n : ℕ) → r ≡ pos n → n < 2 ^ 31)
    → wrapper_retval int r m ≡ (
      if is_negative r then negsuc 0 else r,
      record m { errno = if is_negative r then neg r else pos 0 },
    )
unfolding wrapper_retval convert
int_reply (pos n) m h = ground (arith, h n refl)
int_reply (negsuc e) m h = refl

-- `write` when the kernel takes it.
pub write_accepted :
    (k : Kernel) (fd : ℤ) (p : ℕ) (n : ℤ) (m : Machine)
    → is_negative (answer k m (sys_write fd p n)) ≡ false
    → (write k fd p n m).1 ≡ called k (sys_write fd p n) m (pos 0)
unfolding write wrapper_retval
write_accepted k fd p n m h = rw h

-- The type to which the answer is converted.
abbrev result_type : Prototype → CType
result_type pointer = int
result_type (value t) = t

module _ (k : Kernel) (m : Machine) where
  abbrev retval : CType → Syscall → ℤ × Machine
  retval t c = ◌>>=◌ (syscall k c) (λ ret. wrapper_retval t ret) m

  convert-failure : (t : CType) → convert t (negsuc 0) ≡ failure (value t)
  unfolding convert
  convert-failure ssize_t = refl
  convert-failure _ = refl

  convert-Fits : (t : CType) (r : ℕ) → Fits (value t) r → convert t (pos r) ≡ pos r
  unfolding convert
  convert-Fits ssize_t r h = refl
  convert-Fits _ r h = ground arith

  retval_fails :
      (t : CType) (c : Syscall) (e : ℕ)
      → answer k m c ≡ negsuc e
      → retval t c ≡ (failure (value t), called k c m (pos (suc e)))
  unfolding wrapper_retval
  retval_fails t c e h = ground (arith, convert-failure t)

  retval_succeeds :
      (t : CType) (c : Syscall) (r : ℕ)
      → answer k m c ≡ pos r
      → Fits (value t) r
      → retval t c ≡ (pos r, called k c m (pos 0))
  unfolding wrapper_retval
  retval_succeeds t c r h f = ground (arith, convert-Fits t r f)

  -- On an answer -(e + 1) of the kernel every wrapper but `exit` and `sigaction` returns the
  -- failure of its type (NULL, or -1, which is 2^32 - 1 for `alarm`), sets `errno` to e + 1, has
  -- made exactly its own system call with its own arguments, and touches memory only through it.
  pub wrapper_fails :
      (c : Syscall) (e : ℕ)
      → Wraps c
      → answer k m c ≡ negsuc e
      → wrapper k c m ≡ (failure (prototype c), called k c m (pos (suc e)))
  unfolding wrapper prototype read write close mmap mprotect munmap pipe dup dup2 pause nanosleep
      fork getcwd chdir rename mkdir rmdir creat link unlink readlink chmod chown umask gettimeofday
      getuid getgid setuid setgid geteuid getegid open_path sigprocmask sigpending alarm
  wrapper_fails (sys_mmap a b c d e' g) e w h = ground arith
  wrapper_fails (sys_getcwd a b) e w h = ground arith
  wrapper_fails (sys_open a b c) e w h = ground (arith, convert-failure int)
  wrapper_fails (sys_rt_sigaction a b c d) e w h = absurd w
  wrapper_fails (sys_exit a) e w h = absurd w
  wrapper_fails (sys_rt_sigprocmask a b c d) e w h =
      rw w (retval_fails int (sys_rt_sigprocmask a b c (pos 8)) _ (rw w at h))
  wrapper_fails (sys_rt_sigpending a b) e w h =
      rw w (retval_fails int (sys_rt_sigpending a (pos 8)) _ (rw w at h))
  wrapper_fails c e w h = retval_fails (result_type (prototype c)) c e h

  -- On an answer r that its type can hold every wrapper but `exit` and `sigaction` returns r,
  -- clears `errno`, has made exactly its own system call with its own arguments, and touches
  -- memory only through it.
  pub wrapper_succeeds :
      (c : Syscall) (r : ℕ)
      → Wraps c
      → answer k m c ≡ pos r
      → Fits (prototype c) r
      → wrapper k c m ≡ (pos r, called k c m (pos 0))
  unfolding wrapper prototype read write close mmap mprotect munmap pipe dup dup2 pause nanosleep
      fork getcwd chdir rename mkdir rmdir creat link unlink readlink chmod chown umask gettimeofday
      getuid getgid setuid setgid geteuid getegid open_path sigprocmask sigpending alarm
  wrapper_succeeds (sys_mmap a b c d e' g) r w h f = ground arith
  wrapper_succeeds (sys_getcwd a b) r w h f = ground arith
  wrapper_succeeds (sys_open a b c) r w h f = ground (arith, convert-Fits int r f)
  wrapper_succeeds (sys_rt_sigaction a b c d) r w h f = absurd w
  wrapper_succeeds (sys_exit a) r w h f = absurd w
  wrapper_succeeds (sys_rt_sigprocmask a b c d) r w h f =
      rw w (retval_succeeds int (sys_rt_sigprocmask a b c (pos 8)) _ (rw w at h) f)
  wrapper_succeeds (sys_rt_sigpending a b) r w h f =
      rw w (retval_succeeds int (sys_rt_sigpending a (pos 8)) _ (rw w at h) f)
  wrapper_succeeds c r w h f = retval_succeeds (result_type (prototype c)) c r h f
