-- ===== src/Libmini/Wrappers.antt =====
-- The wrappers of hw3/libmini.c that turn the answer of a system call into a result and `errno`,
-- and `open`, which hw3/libmini64.asm has in assembly for its variable arguments.
pub mod Reply
use nctu_unix.Base.{ℕ, ℤ, pos, negsuc, neg, is_negative, signed32, low32, if◌then◌else◌}
use nctu_unix.Libmini.Machine.{Syscall, Kernel, M, pure, ◌>>=◌, ◌>>◌, set_errno, syscall}
use nctu_unix.Libmini.Machine.{
  sys_open, sys_exit, sys_read, sys_write, sys_close, sys_mmap, sys_mprotect, sys_munmap, sys_pipe,
  sys_dup, sys_dup2, sys_pause, sys_nanosleep, sys_fork, sys_getcwd, sys_chdir, sys_rename,
  sys_mkdir, sys_rmdir, sys_creat, sys_link, sys_unlink, sys_readlink, sys_chmod, sys_chown,
  sys_umask, sys_gettimeofday, sys_getuid, sys_getgid, sys_setuid, sys_setgid, sys_geteuid,
  sys_getegid,
}

-- The result types of the wrappers; libmini.h has `pid_t` and `uid_t` for `int`.
pub data CType : Type 0 where
  ssize_t int pid_t uid_t unsigned_int : CType

-- The conversion of a `long` to the result type.
unfoldable pub convert : CType → ℤ → ℤ
convert ssize_t r = r
convert int r = signed32 (low32 r)
convert pid_t r = signed32 (low32 r)
convert uid_t r = signed32 (low32 r)
convert unsigned_int r = pos (low32 r)

-- `WRAPPER_RETval(type)`.
unfoldable pub wrapper_retval : CType → ℤ → M ℤ
unfolding convert
wrapper_retval type ret = do
  set_errno (pos 0)
  if is_negative ret
      then set_errno (neg ret) >> pure (convert type (negsuc 0))
      else pure (convert type ret)

-- The low bits of a pointer are those of the `long`; of an answer that is no error, all of them.
abbrev pub to_pointer : ℤ → ℕ
to_pointer (pos n) = n
to_pointer (negsuc n) = 0

-- `WRAPPER_RETptr(type)`: NULL on an error.
unfoldable pub wrapper_retptr : ℤ → M ℕ
wrapper_retptr ret = do
  set_errno (pos 0)
  if is_negative ret then set_errno (neg ret) >> pure 0 else pure (to_pointer ret)

module _ (k : Kernel) where
  pub read : ℤ → ℕ → ℤ → M ℤ
  unfolding wrapper_retval
  read fd buf count = do ret ← syscall k (sys_read fd buf count); wrapper_retval ssize_t ret

  pub write : ℤ → ℕ → ℤ → M ℤ
  unfolding wrapper_retval
  write fd buf count = do ret ← syscall k (sys_write fd buf count); wrapper_retval ssize_t ret

  pub close : ℕ → M ℤ
  unfolding wrapper_retval
  close fd = do ret ← syscall k (sys_close fd); wrapper_retval int ret

  pub mmap : ℕ → ℤ → ℤ → ℤ → ℤ → ℤ → M ℕ
  unfolding wrapper_retptr
  mmap addr len prot flags fd off = do
    ret ← syscall k (sys_mmap addr len prot flags fd off)
    wrapper_retptr ret

  pub mprotect : ℕ → ℤ → ℤ → M ℤ
  unfolding wrapper_retval
  mprotect addr len prot = do ret ← syscall k (sys_mprotect addr len prot); wrapper_retval int ret

  pub munmap : ℕ → ℤ → M ℤ
  unfolding wrapper_retval
  munmap addr len = do ret ← syscall k (sys_munmap addr len); wrapper_retval int ret

  pub pipe : ℕ → M ℤ
  unfolding wrapper_retval
  pipe filedes = do ret ← syscall k (sys_pipe filedes); wrapper_retval int ret

  pub dup : ℤ → M ℤ
  unfolding wrapper_retval
  dup filedes = do ret ← syscall k (sys_dup filedes); wrapper_retval int ret

  pub dup2 : ℤ → ℤ → M ℤ
  unfolding wrapper_retval
  dup2 oldfd newfd = do ret ← syscall k (sys_dup2 oldfd newfd); wrapper_retval int ret

  pub pause : M ℤ
  unfolding wrapper_retval
  pause = do ret ← syscall k sys_pause; wrapper_retval int ret

  pub nanosleep : ℕ → ℕ → M ℤ
  unfolding wrapper_retval
  nanosleep rqtp rmtp = do ret ← syscall k (sys_nanosleep rqtp rmtp); wrapper_retval int ret

  pub fork : M ℤ
  unfolding wrapper_retval
  fork = do ret ← syscall k sys_fork; wrapper_retval pid_t ret

  pub getcwd : ℕ → ℤ → M ℕ
  unfolding wrapper_retptr
  getcwd buf size = do ret ← syscall k (sys_getcwd buf size); wrapper_retptr ret

  pub chdir : ℕ → M ℤ
  unfolding wrapper_retval
  chdir pathname = do ret ← syscall k (sys_chdir pathname); wrapper_retval int ret

  pub rename : ℕ → ℕ → M ℤ
  unfolding wrapper_retval
  rename oldname newname = do ret ← syscall k (sys_rename oldname newname); wrapper_retval int ret

  pub mkdir : ℕ → ℤ → M ℤ
  unfolding wrapper_retval
  mkdir pathname mode = do ret ← syscall k (sys_mkdir pathname mode); wrapper_retval int ret

  pub rmdir : ℕ → M ℤ
  unfolding wrapper_retval
  rmdir pathname = do ret ← syscall k (sys_rmdir pathname); wrapper_retval int ret

  pub creat : ℕ → ℤ → M ℤ
  unfolding wrapper_retval
  creat pathname mode = do ret ← syscall k (sys_creat pathname mode); wrapper_retval int ret

  pub link : ℕ → ℕ → M ℤ
  unfolding wrapper_retval
  link oldname newname = do ret ← syscall k (sys_link oldname newname); wrapper_retval int ret

  pub unlink : ℕ → M ℤ
  unfolding wrapper_retval
  unlink pathname = do ret ← syscall k (sys_unlink pathname); wrapper_retval int ret

  pub readlink : ℕ → ℕ → ℤ → M ℤ
  unfolding wrapper_retval
  readlink path buf bufsz = do
    ret ← syscall k (sys_readlink path buf bufsz)
    wrapper_retval ssize_t ret

  pub chmod : ℕ → ℤ → M ℤ
  unfolding wrapper_retval
  chmod filename mode = do ret ← syscall k (sys_chmod filename mode); wrapper_retval int ret

  pub chown : ℕ → ℤ → ℤ → M ℤ
  unfolding wrapper_retval
  chown filename user group = do
    ret ← syscall k (sys_chown filename user group)
    wrapper_retval int ret

  pub umask : ℤ → M ℤ
  unfolding wrapper_retval
  umask mask = do ret ← syscall k (sys_umask mask); wrapper_retval int ret

  pub gettimeofday : ℕ → ℕ → M ℤ
  unfolding wrapper_retval
  gettimeofday tv tz = do ret ← syscall k (sys_gettimeofday tv tz); wrapper_retval int ret

  pub getuid : M ℤ
  unfolding wrapper_retval
  getuid = do ret ← syscall k sys_getuid; wrapper_retval uid_t ret

  pub getgid : M ℤ
  unfolding wrapper_retval
  getgid = do ret ← syscall k sys_getgid; wrapper_retval uid_t ret

  pub setuid : ℤ → M ℤ
  unfolding wrapper_retval
  setuid uid = do ret ← syscall k (sys_setuid uid); wrapper_retval int ret

  pub setgid : ℤ → M ℤ
  unfolding wrapper_retval
  setgid gid = do ret ← syscall k (sys_setgid gid); wrapper_retval int ret

  pub geteuid : M ℤ
  unfolding wrapper_retval
  geteuid = do ret ← syscall k sys_geteuid; wrapper_retval uid_t ret

  pub getegid : M ℤ
  unfolding wrapper_retval
  getegid = do ret ← syscall k sys_getegid; wrapper_retval uid_t ret

  -- It does not return; what follows the call is of no effect.
  pub exit : ℤ → M (Unit {0})
  exit error_code = do _ ← syscall k (sys_exit error_code); pure tt

  -- `cmp rax, 0; jge`: the same convention, in assembly; the caller reads the low half of `rax`.
  pub open_path : ℕ → ℤ → ℤ → M ℤ
  unfolding convert
  open_path filename flags mode = do
    rax ← syscall k (sys_open filename flags mode)
    if is_negative rax
        then set_errno (neg rax) >> pure (convert int (negsuc 0))
        else set_errno (pos 0) >> pure (convert int rax)
