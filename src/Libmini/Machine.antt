-- ===== src/Libmini/Machine.antt =====
-- The state that the library works on, the system calls of libmini.h, and the kernel behind them.
--
-- Pointers and `unsigned` values are natural numbers, NULL is 0, every signed type is an integer.
-- Note that libmini.h declares `size_t` as `long long`: sizes are signed here.
use nctu_unix.Base.{ℕ, List, ◌∷◌, ℤ}
use nctu_unix.Base.Memory.{Memory}

-- One constructor for each prototype `sys_...` of the header, with its arguments.
pub data Syscall : Type 0 where
  sys_read : ℤ → ℕ → ℤ → Syscall
  sys_write : ℤ → ℕ → ℤ → Syscall
  sys_open : ℕ → ℤ → ℤ → Syscall
  sys_close : ℕ → Syscall
  sys_mmap : ℕ → ℤ → ℤ → ℤ → ℤ → ℤ → Syscall
  sys_mprotect : ℕ → ℤ → ℤ → Syscall
  sys_munmap : ℕ → ℤ → Syscall
  sys_rt_sigaction : ℤ → ℕ → ℕ → ℤ → Syscall
  sys_rt_sigprocmask : ℤ → ℕ → ℕ → ℤ → Syscall
  sys_pipe : ℕ → Syscall
  sys_dup : ℤ → Syscall
  sys_dup2 : ℤ → ℤ → Syscall
  sys_pause : Syscall
  sys_nanosleep : ℕ → ℕ → Syscall
  sys_alarm : ℕ → Syscall
  sys_fork : Syscall
  sys_exit : ℤ → Syscall
  sys_getcwd : ℕ → ℤ → Syscall
  sys_chdir : ℕ → Syscall
  sys_rename : ℕ → ℕ → Syscall
  sys_mkdir : ℕ → ℤ → Syscall
  sys_rmdir : ℕ → Syscall
  sys_creat : ℕ → ℤ → Syscall
  sys_link : ℕ → ℕ → Syscall
  sys_unlink : ℕ → Syscall
  sys_readlink : ℕ → ℕ → ℤ → Syscall
  sys_chmod : ℕ → ℤ → Syscall
  sys_chown : ℕ → ℤ → ℤ → Syscall
  sys_umask : ℤ → Syscall
  sys_gettimeofday : ℕ → ℕ → Syscall
  sys_getuid : Syscall
  sys_getgid : Syscall
  sys_setuid : ℤ → Syscall
  sys_setgid : ℤ → Syscall
  sys_geteuid : Syscall
  sys_getegid : Syscall
  sys_rt_sigpending : ℕ → ℤ → Syscall

-- A call that was made, and the memory that the kernel saw.
pub record Event : Type 0 where
  pub call : Syscall
  pub seen : Memory

-- The kernel: its answer, and the memory that it leaves, from all earlier calls and this one.
abbrev pub Kernel : Type 0
Kernel = List Event → Syscall → Memory → ℤ × Memory

-- `calls` is the history, the last call first; the library itself does not read it.
pub record Machine : Type 0 where
  pub memory : Memory
  pub errno : ℤ
  pub calls : List Event

abbrev pub M {ℓ} : Type ℓ → Type ℓ
M A = Machine → A × Machine

abbrev pub pure {ℓ} : {A : Type ℓ} → A → M A
pure a m = (a, m)

infixl 5 ◌>>=◌ ◌>>◌
abbrev pub ◌>>=◌ {ℓ κ} : {A : Type ℓ} {B : Type κ} → M A → (A → M B) → M B
◌>>=◌ f g m = let r = f m in g r.0 r.1

abbrev pub ◌>>◌ {ℓ κ} : {A : Type ℓ} {B : Type κ} → M A → M B → M B
f >> g = f >>= λ _. g

abbrev pub set_errno : ℤ → M (Unit {0})
set_errno e m = (tt, record m { errno = e })

abbrev pub set_memory : (Memory → Memory) → M (Unit {0})
set_memory f m = (tt, record m { memory = f m.memory })

abbrev pub memory : M Memory
memory m = (m.memory, m)

abbrev pub syscall : Kernel → Syscall → M ℤ
syscall k c m =
    let r = k m.calls c m.memory in
    (r.0, record m { memory = r.1; calls = record { call = c; seen = m.memory } ∷ m.calls })

-- What the kernel answers to `c` now.
abbrev pub answer : Kernel → Machine → Syscall → ℤ
answer k m c = (k m.calls c m.memory).0
