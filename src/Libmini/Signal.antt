-- ===== src/Libmini/Signal.antt =====
-- `signal`, `sigaction` and the other calls on signals of hw3/libmini.c.
pub mod Install
use nctu_unix.Base.{
  ℕ, ◌+◌, ◌^◌, ◌-◌, bit_or, Bool, ◌||◌, ◌==◌, if◌then◌else◌, ℤ, pos, negsuc, leb_ℤ, ltb_ℤ,
  is_negative,
}
use nctu_unix.Base.Memory.{load64, store64}
use nctu_unix.Libmini.Machine.{Kernel, M, pure, ◌>>=◌, ◌>>◌, set_errno, set_memory, memory, syscall}
use nctu_unix.Libmini.Machine.{sys_rt_sigaction, sys_rt_sigprocmask, sys_rt_sigpending, sys_alarm}
use nctu_unix.Libmini.Wrappers.{int, unsigned_int, wrapper_retval}
use nctu_unix.Libmini.Sigset.{einval, nsig, sigemptyset, sigaddset}

abbrev pub sa_restart : ℕ
sa_restart = 0x10000000

abbrev pub sa_restorer : ℕ
sa_restorer = 0x04000000

-- `(sighandler_t)-1`.
abbrev pub sig_err : ℕ
sig_err = 2 ^ 64 - 1

-- `NSIG / 8`.
abbrev pub sigset_size : ℤ
sigset_size = pos 8

-- Where the fields of `struct sigaction` stand in it.
abbrev pub handler_of : ℕ → ℕ
handler_of act = act

abbrev pub flags_of : ℕ → ℕ
flags_of act = act + 8

abbrev pub restorer_of : ℕ → ℕ
restorer_of act = act + 16

abbrev pub mask_of : ℕ → ℕ
mask_of act = act + 24

module _ (k : Kernel) where
  unfoldable pub sigprocmask : ℤ → ℕ → ℕ → M ℤ
  unfolding wrapper_retval
  sigprocmask how set oset = do
    ret ← syscall k (sys_rt_sigprocmask how set oset sigset_size)
    wrapper_retval int ret

  unfoldable pub sigpending : ℕ → M ℤ
  unfolding wrapper_retval
  sigpending set = do ret ← syscall k (sys_rt_sigpending set sigset_size); wrapper_retval int ret

  unfoldable pub alarm : ℕ → M ℤ
  unfolding wrapper_retval
  alarm seconds = do ret ← syscall k (sys_alarm seconds); wrapper_retval unsigned_int ret

  -- `myrt` is the address of the assembly routine that returns from a handler.
  module _ (myrt : ℕ) where
    -- `act` is read and written through, with no test for NULL.
    pub sigaction : ℤ → ℕ → ℕ → M ℤ
    sigaction sig act oact = do
      set_memory (λ m. store64 m (flags_of act) (bit_or (load64 m (flags_of act)) sa_restorer))
      set_memory (λ m. store64 m (restorer_of act) myrt)
      ret ← syscall k (sys_rt_sigaction sig act oact sigset_size)
      wrapper_retval int ret

    -- `act` and `oact` are the addresses of the two local structures.
    pub signal : ℕ → ℕ → ℤ → ℕ → M ℕ
    signal act oact sig handler =
        if handler == sig_err || ltb_ℤ sig (pos 1) || leb_ℤ nsig sig
        then set_errno einval >> pure sig_err
        else do
          set_memory (λ m. store64 m (handler_of act) handler)
          _ ← sigemptyset (mask_of act)
          _ ← sigaddset (mask_of act) sig
          set_memory (λ m. store64 m (flags_of act) sa_restart)
          r ← sigaction sig act oact
          m ← memory
          pure (if is_negative r then sig_err else load64 m (handler_of oact))
