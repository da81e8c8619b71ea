-- ===== src/Lsof/Fds.antt =====
-- `get_fds` of hw1/hw1.c: the open descriptors of a process.
pub mod Entries
use nctu_unix.Base.{
  ℕ, ◌+◌, Bool, true, false, ◌||◌, ◌==◌, if◌then◌else◌, List, [], ◌∷◌, ◌++◌, Option, none, some,
  length, codes, eq_text, take,
}
use nctu_unix.Base.Numbers.{decimal}
use nctu_unix.Lsof.Options.{Text, Options}
use nctu_unix.Lsof.Row.{file_type, descriptor}
use nctu_unix.Lsof.Process.{
  Stat, Files, Process, State, strncat, cut_path, print, denied, c_string, put_zero, overwrite,
  fits,
}
use nctu_unix.Lsof.Dirname.{dirname, cut_dirname}

abbrev pub is_dots : Text → Bool
is_dots name = eq_text name (codes ".") || eq_text name (codes "..")

-- The name of a pipe; that of a socket, whatever the path is.
unfoldable pub fd_name : Text → Text → ℕ → Text
fd_name path type ino =
    if eq_text type (codes "SOCK")
    then codes "socket:[" ++ (decimal ino ++ codes "]")
    else if eq_text path (codes ".")
    then (if eq_text type (codes "FIFO")
        then codes "pipe:[" ++ (decimal ino ++ codes "]")
        else path)
    else path

module _ (files : Files) (matches : Text → Text → Bool) (o : Options) where
  abbrev pub with_target : Text → State → State
  with_target target s = record s {
    fd_buff = put_zero (length target) (cut_dirname (overwrite target s.fd_buff));
  }

  -- What is copied into `path`.
  abbrev pub fd_dir : Text → State → Text
  fd_dir target s = dirname (c_string (overwrite target s.fd_buff))

  -- The row of an entry, with its path in place, and the path back at the directory.
  abbrev pub print_fd : ℕ → Text → Stat → Text → State → State
  print_fd previous_length name st target s = cut_path previous_length (
      print matches o (descriptor name st.st_mode) (file_type st.st_mode) (decimal st.st_ino)
        (fd_name (fd_dir target s) (file_type st.st_mode) st.st_ino) (with_target target s))

  -- A link that cannot be read gives -1, and `buff[-1]` is written: `none`, like a `strcpy` behind
  -- the end of `path`. A failure of `stat`
  -- returns at once, with the other entries left out.
  unfoldable pub fd_loop : List Text → State → Option State
  fd_loop [] s = some s
  fd_loop (name ∷ names) s =
      if is_dots name then fd_loop names s else elim (files.readlink (s.process.path ++ name)) [
        | none ↦ none
        | some target ↦ elim (fits (fd_dir target s)) [
          | false ↦ none
          | true ↦ elim (files.stat (s.process.path ++ name)) [
            | none ↦ some (with_target target (strncat name s))
            | some st ↦
                fd_loop names (print_fd (length s.process.path) name st target (strncat name s))
          ]
        ]
      ]

  abbrev pub set_parent : ℕ → State → State
  set_parent n s = record s { process = record s.process { parent_length = n } }

  -- The path and its length at the directory of the descriptors.
  abbrev pub in_fds : State → State
  in_fds s = set_parent (s.process.parent_length + 3) (strncat (codes "fd/") s)

  abbrev pub no_fds : ℕ → State → State
  no_fds previous_length s =
      cut_path previous_length
        (set_parent previous_length (print matches o (codes "NOFD") [] [] s.process.path s))

  unfoldable pub get_fds : State → Option State
  get_fds s = elim (files.entries (in_fds s).process.path) [
    | none ↦ some (no_fds s.process.parent_length (strncat denied (in_fds s)))
    | some names ↦ fd_loop names (in_fds s)
  ]
