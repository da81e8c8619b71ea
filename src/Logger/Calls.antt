-- ===== src/Logger/Calls.antt =====
-- The functions that hw2/hw2_so.c puts in front of those of libc.
use Prim.Native.String.{String}
use nctu_unix.Base.{ℕ, Bool, bit_and, ◌&&◌, not, ◌==◌, if◌then◌else◌, [], ◌∷◌, Option, none, some}
use nctu_unix.Base.{ℤ, pos, low32, codes}
use nctu_unix.Logger.State.{
  Text, Arg, str, num, realpath, fileno, Env, M, pure, ◌>>=◌, ◌>>◌, get, call, call_text,
}
use nctu_unix.Logger.Log.{char_buf, load_symbol, call_original, log, get_file_name_by_fd}

-- `res ? real_path : path`.
abbrev pub shown : Option Text → Text → Text
shown none path = path
shown (some real) path = real

abbrev name : String → Arg
name func = str (codes func)

-- The flags of <fcntl.h> on Linux.
abbrev pub o_creat : ℕ
o_creat = 0o100

abbrev pub o_tmpfile : ℕ
o_tmpfile = 0o20200000

-- `(flags & O_CREAT) != O_CREAT && (flags & O_TMPFILE) != O_TMPFILE`.
unfoldable pub takes_no_mode : ℤ → Bool
takes_no_mode flags =
    not (bit_and (low32 flags) o_creat == o_creat)
    && not (bit_and (low32 flags) o_tmpfile == o_tmpfile)

module _ (e : Env) where
  unfoldable pub chmod : Text → ℤ → M ℤ
  chmod pathname mode = do
    load_symbol e "chmod"
    res ← call_text e (realpath pathname)
    ret ← call_original e "chmod" (str pathname ∷ num mode ∷ [])
    log e "%s(\"%s\", %o) = %d\n"
        (name "chmod" ∷ str (shown res pathname) ∷ num mode ∷ num ret ∷ [])
    pure ret

  unfoldable pub chown : Text → ℤ → ℤ → M ℤ
  chown pathname owner group = do
    load_symbol e "chown"
    res ← call_text e (realpath pathname)
    ret ← call_original e "chown" (str pathname ∷ num owner ∷ num group ∷ [])
    log e "%s(\"%s\", %d, %d) = %d\n"
        (name "chown" ∷ str (shown res pathname) ∷ num owner ∷ num group ∷ num ret ∷ [])
    pure ret

  unfoldable pub creat : Text → ℤ → M ℤ
  creat path mode = do
    load_symbol e "creat"
    res ← call_text e (realpath path)
    ret ← call_original e "creat" (str path ∷ num mode ∷ [])
    log e "%s(\"%s\", %o) = %d\n" (name "creat" ∷ str (shown res path) ∷ num mode ∷ num ret ∷ [])
    pure ret

  unfoldable pub creat64 : Text → ℤ → M ℤ
  creat64 path mode = do
    load_symbol e "creat64"
    res ← call_text e (realpath path)
    ret ← call_original e "creat64" (str path ∷ num mode ∷ [])
    log e "%s(\"%s\", %o) = %d\n" (name "creat64" ∷ str (shown res path) ∷ num mode ∷ num ret ∷ [])
    pure ret

  unfoldable pub fopen : Text → Text → M ℤ
  fopen pathname mode = do
    load_symbol e "fopen"
    res ← call_text e (realpath pathname)
    ret ← call_original e "fopen" (str pathname ∷ str mode ∷ [])
    log e "%s(\"%s\", \"%s\") = %p\n"
        (name "fopen" ∷ str (shown res pathname) ∷ str mode ∷ num ret ∷ [])
    pure ret

  unfoldable pub fopen64 : Text → Text → M ℤ
  fopen64 pathname mode = do
    load_symbol e "fopen64"
    res ← call_text e (realpath pathname)
    ret ← call_original e "fopen64" (str pathname ∷ str mode ∷ [])
    log e "%s(\"%s\", \"%s\") = %p\n"
        (name "fopen64" ∷ str (shown res pathname) ∷ str mode ∷ num ret ∷ [])
    pure ret

  unfoldable pub fclose : ℤ → M ℤ
  fclose stream = do
    load_symbol e "fclose"
    fd ← call e (fileno stream)
    get_file_name_by_fd e "fclose" fd
    ret ← call_original e "fclose" (num stream ∷ [])
    s ← get
    log e "%s(\"%s\") = %d\n" (name "fclose" ∷ str (s.link_dest "fclose") ∷ num ret ∷ [])
    pure ret

  unfoldable pub fread : ℕ → ℤ → ℤ → ℤ → M ℤ
  fread ptr size nmemb stream = do
    load_symbol e "fread"
    before ← get
    let buf = char_buf before.memory ptr
    fd ← call e (fileno stream)
    get_file_name_by_fd e "fread" fd
    ret ← call_original e "fread" (num (pos ptr) ∷ num size ∷ num nmemb ∷ num stream ∷ [])
    s ← get
    log e "%s(\"%s\", %zu, %zu, \"%s\") = %zu\n"
        (name "fread" ∷ str buf ∷ num size ∷ num nmemb ∷ str (s.link_dest "fread") ∷ num ret ∷ [])
    pure ret

  unfoldable pub fwrite : ℕ → ℤ → ℤ → ℤ → M ℤ
  fwrite ptr size nmemb stream = do
    load_symbol e "fwrite"
    before ← get
    let buf = char_buf before.memory ptr
    fd ← call e (fileno stream)
    get_file_name_by_fd e "fwrite" fd
    ret ← call_original e "fwrite" (num (pos ptr) ∷ num size ∷ num nmemb ∷ num stream ∷ [])
    s ← get
    log e "%s(\"%s\", %zu, %zu, \"%s\") = %zu\n"
        (name "fwrite" ∷ str buf ∷ num size ∷ num nmemb ∷ str (s.link_dest "fwrite") ∷ num ret ∷ [])
    pure ret

  unfoldable pub open_file : Text → ℤ → ℤ → M ℤ
  open_file pathname flags mode = do
    load_symbol e "open"
    res ← call_text e (realpath pathname)
    if takes_no_mode flags
        then (do
          ret ← call_original e "open" (str pathname ∷ num flags ∷ [])
          log e "%s(\"%s\", %o) = %d\n"
              (name "open" ∷ str (shown res pathname) ∷ num flags ∷ num ret ∷ [])
          pure ret)
        else (do
          ret ← call_original e "open" (str pathname ∷ num flags ∷ num mode ∷ [])
          log e "%s(\"%s\", %o, %o) = %d\n"
              (name "open" ∷ str (shown res pathname) ∷ num flags ∷ num mode ∷ num ret ∷ [])
          pure ret)

  unfoldable pub open_file64 : Text → ℤ → ℤ → M ℤ
  open_file64 pathname flags mode = do
    load_symbol e "open64"
    res ← call_text e (realpath pathname)
    if takes_no_mode flags
        then (do
          ret ← call_original e "open64" (str pathname ∷ num flags ∷ [])
          log e "%s(\"%s\", %o) = %d\n"
              (name "open64" ∷ str (shown res pathname) ∷ num flags ∷ num ret ∷ [])
          pure ret)
        else (do
          ret ← call_original e "open64" (str pathname ∷ num flags ∷ num mode ∷ [])
          log e "%s(\"%s\", %o, %o) = %d\n"
              (name "open64" ∷ str (shown res pathname) ∷ num flags ∷ num mode ∷ num ret ∷ [])
          pure ret)

  unfoldable pub close : ℤ → M ℤ
  close fd = do
    load_symbol e "close"
    get_file_name_by_fd e "close" fd
    ret ← call_original e "close" (num fd ∷ [])
    s ← get
    log e "%s(\"%s\") = %d\n" (name "close" ∷ str (s.link_dest "close") ∷ num ret ∷ [])
    pure ret

  unfoldable pub read : ℤ → ℕ → ℤ → M ℤ
  read fd buf count = do
    load_symbol e "read"
    before ← get
    let chars = char_buf before.memory buf
    get_file_name_by_fd e "read" fd
    ret ← call_original e "read" (num fd ∷ num (pos buf) ∷ num count ∷ [])
    s ← get
    log e "%s(\"%s\", \"%s\", %zu) = %zd\n"
        (name "read" ∷ str (s.link_dest "read") ∷ str chars ∷ num count ∷ num ret ∷ [])
    pure ret

  unfoldable pub write : ℤ → ℕ → ℤ → M ℤ
  write fd buf count = do
    load_symbol e "write"
    before ← get
    let chars = char_buf before.memory buf
    get_file_name_by_fd e "write" fd
    ret ← call_original e "write" (num fd ∷ num (pos buf) ∷ num count ∷ [])
    s ← get
    log e "%s(\"%s\", \"%s\", %zu) = %zd\n"
        (name "write" ∷ str (s.link_dest "write") ∷ str chars ∷ num count ∷ num ret ∷ [])
    pure ret

  unfoldable pub remove : Text → M ℤ
  remove path = do
    load_symbol e "remove"
    res ← call_text e (realpath path)
    ret ← call_original e "remove" (str path ∷ [])
    log e "%s(\"%s\") = %d\n" (name "remove" ∷ str (shown res path) ∷ num ret ∷ [])
    pure ret

  unfoldable pub rename : Text → Text → M ℤ
  rename oldpath newpath = do
    load_symbol e "rename"
    res1 ← call_text e (realpath oldpath)
    res2 ← call_text e (realpath newpath)
    ret ← call_original e "rename" (str oldpath ∷ str newpath ∷ [])
    log e "%s(\"%s\", \"%s\") = %d\n"
        (name "rename" ∷ str (shown res1 oldpath) ∷ str (shown res2 newpath) ∷ num ret ∷ [])
    pure ret

  unfoldable pub tmpfile : M ℤ
  tmpfile = do
    load_symbol e "tmpfile"
    ret ← call_original e "tmpfile" []
    log e "%s() = %p\n" (name "tmpfile" ∷ num ret ∷ [])
    pure ret

  unfoldable pub tmpfile64 : M ℤ
  tmpfile64 = do
    load_symbol e "tmpfile64"
    ret ← call_original e "tmpfile64" []
    log e "%s() = %p\n" (name "tmpfile64" ∷ num ret ∷ [])
    pure ret
