-- ===== src/Logger/Log.antt =====
-- The macros `DLSYM` and `log` and the two helpers of hw2/hw2_so.c.
pub mod Steps
use Prim.Native.String.{String, ◌++◌ as str_append}
use nctu_unix.Base.{ℕ, zero, suc, ◌+◌, ◌==◌, if◌then◌else◌, List, [], ◌∷◌, Option, none, some}
use nctu_unix.Base.{ℤ, pos, eq_ℤ, is_negative, codes, true, false}
use nctu_unix.Base.Memory.{Memory}
use nctu_unix.Base.Numbers.{is_print, atoi}
use nctu_unix.Logger.State.{
  Text, Arg, str, num, Call, dlopen, dlsym, original, readlink, getenv, fdopen, fprintf, printf,
  Env, State, M, pure, ◌>>=◌, ◌>>◌, fail, get, put, update, call, call_text,
}

abbrev pub null : ℤ
null = pos 0

-- The C string that `charBuf` leaves in the buffer of 32 bytes, `rounds` bytes before its last:
-- a byte that is not printable becomes a dot, and a NUL ends it.
unfoldable pub char_buf_loop : ℕ → Memory → ℕ → Text
char_buf_loop zero m ptr = []
char_buf_loop (suc rounds) m ptr =
    let rest = char_buf_loop rounds m (ptr + 1) in
    if is_print (m ptr) then m ptr ∷ rest else if m ptr == 0 then [] else b'.' ∷ rest

unfoldable pub char_buf : Memory → ℕ → Text
char_buf m ptr = char_buf_loop 31 m ptr

module _ (e : Env) where
  -- `DLSYM(sym)`: where libc cannot be opened, the pointer stays as it was.
  unfoldable pub load_symbol : String → M (Unit {0})
  load_symbol sym = do
    handle ← call e (dlopen "libc.so.6")
    if eq_ℤ handle null
        then pure tt
        else do p ← call e (dlsym sym); s ← get; put (record s { ori = update s.ori sym p })

  -- A call through the pointer `ori_<sym>`.
  unfoldable pub call_original : String → List Arg → M ℤ
  call_original sym args = do
    s ← get
    if eq_ℤ (s.ori sym) null then fail else call e (original sym args)

  abbrev pub set_output : ℤ → M (Unit {0})
  set_output f = do s ← get; put (record s { output = f })

  -- The first `log` opens the output: the file LOGGER_OUTPUT, or else the descriptor LOGGER_STDERR.
  unfoldable pub open_output : M (Unit {0})
  open_output = do
    log_output ← call_text e (getenv "LOGGER_OUTPUT")
    elim log_output [
      | some path ↦ do
        load_symbol "fopen"
        f ← call_original "fopen" (str path ∷ str (codes "w") ∷ [])
        set_output f
      | none ↦ do
        fd ← call_text e (getenv "LOGGER_STDERR")
        elim fd [ none ↦ fail | some text ↦ do f ← call e (fdopen (atoi text) "w"); set_output f ]
    ]

  -- `log(format, ...)`.
  unfoldable pub log : String → List Arg → M (Unit {0})
  log format args = do
    s ← get
    if eq_ℤ s.output null then open_output else pure tt
    s' ← get
    if eq_ℤ s'.output null
        then fail
        else do _ ← call e (fprintf s'.output (str_append "[logger] " format) args); pure tt

  -- `getFileNameByFd`, into the static buffer of the function `func`: where the link cannot be
  -- read, the buffer stays as it was.
  unfoldable pub get_file_name_by_fd : String → ℤ → M (Unit {0})
  get_file_name_by_fd func fd = do
    link ← call_text e (readlink fd)
    elim link [
      | none ↦ do _ ← call e (printf "%s\n" (str (codes "fail to read link") ∷ [])); pure tt
      | some dest ↦ do s ← get; put (record s { link_dest = update s.link_dest func dest })
    ]
