-- ===== src/LsofCpp/Fd.antt =====
-- `file_fd` of hw1/hw1.cpp: the open descriptors of a process.
use nctu_unix.Base.{
  ℕ, Bool, ◌||◌, ◌==◌, bit_and, if◌then◌else◌, List, [], ◌∷◌, ◌++◌, Option, none, some, codes,
  eq_text,
}
use nctu_unix.LsofCpp.Options.{Text, Filters}
use nctu_unix.LsofCpp.Result.{Process}
use nctu_unix.LsofCpp.Links.{
  Stat, Answer, value, error, Files, State, after, eacces, with_stat, print,
}

abbrev pub is_dots : Text → Bool
is_dots name = eq_text name (codes ".") || eq_text name (codes "..")

-- S_IRUSR is 0400 and S_IWUSR is 0200.
unfoldable pub with_letter : Text → ℕ → Text
with_letter name st_mode =
    if bit_and st_mode 0o600 == 0o600
    then name ++ codes "u"
    else if bit_and st_mode 0o400 == 0o400
    then name ++ codes "r"
    else if bit_and st_mode 0o200 == 0o200
    then name ++ codes "w"
    else name

-- Without an answer of lstat the column keeps what it held.
abbrev pub with_lstat : Text → Answer Stat → Process → Process
with_lstat name (value st) file = record file { fd = with_letter name st.st_mode }
with_lstat name (error e) file = file

module _ (files : Files) (matches : Text → Text → Bool) (o : Filters) where
  abbrev pub entry_path : Process → Text → Text
  entry_path file name = file.path ++ (file.dir ++ (codes "/" ++ name))

  -- The fields of an entry whose link could be read.
  abbrev pub entry_file : Text → Text → Process → Process
  entry_file name target file =
      with_lstat name (files.lstat (entry_path file name))
        (with_stat (files.stat (entry_path file name)) (record file { name = target }))

  unfoldable pub fd_loop : List Text → Process → State → State
  fd_loop [] file s = s
  fd_loop (name ∷ names) file s =
      let skip = fd_loop names file s in
      let rest : State = elim (files.readlink (entry_path file name)) [
        | error e ↦ fd_loop names file (record s { errno = e })
        | value target ↦ fd_loop names (entry_file name target file) (
            print files matches o (entry_file name target file) (
              after (files.lstat (entry_path file name))
                (after (files.stat (entry_path file name)) s)))
      ] in
      if is_dots name then skip else rest

  -- `closedir(NULL)` fails with EINVAL.
  abbrev pub closed : Answer (List Text) → State → State
  closed (value names) s = s
  closed (error e) s = record s { errno = 22 }

  abbrev pub denied_file : Process → ℕ → Process
  denied_file file e = record file {
    type = [];
    inode = [];
    name = file.path ++ (file.dir ++ (codes " (opendir: " ++ (files.strerror e ++ codes ")")));
    fd = codes "NOFD";
  }

  -- `errno` is read whether or not `opendir` failed; with another error `readdir` gets NULL:
  -- `none`.
  abbrev pub show_dir : Answer (List Text) → Process → State → Option State
  show_dir dir file s =
      if s.errno == eacces
      then some (closed dir (print files matches o (denied_file file s.errno) s))
      else elim dir [ value names ↦ some (fd_loop names file s) | error e ↦ none ]

  unfoldable pub file_fd : Process → State → Option State
  file_fd file s =
      let dir = files.opendir (file.path ++ file.dir) in show_dir dir file (after dir s)
