-- ===== src/Lsof/Files.antt =====
-- `get_file` of hw1/hw1.c: the working directory, the root and the executable of a process.
pub mod Path
use nctu_unix.Base.{ℕ, Bool, true, false, List, [], ◌∷◌, Option, none, some, length, codes}
use nctu_unix.Base.Numbers.{decimal}
use nctu_unix.Lsof.Options.{Text, Options}
use nctu_unix.Lsof.Row.{file_type}
use nctu_unix.Lsof.Process.{
  Stat, Files, Process, State, strncat, cut_path, print, denied, c_string, put_zero, overwrite,
  fits,
}
use nctu_unix.Lsof.Dirname.{dirname, cut_dirname}

-- The values of `file` for which there is a branch.
pub data Link : Type 0 where
  cwd root exe : Link

abbrev pub link_name : Link → Text
link_name cwd = codes "cwd"
link_name root = codes "root"
link_name exe = codes "exe"

abbrev pub link_fd : Link → Text
link_fd cwd = codes "cwd"
link_fd root = codes "rtd"
link_fd exe = codes "txt"

module _ (files : Files) (matches : Text → Text → Bool) (o : Options) where
  -- Behind `readlink`: the buffer with the link, `dirname` of it, and its end.
  abbrev pub with_link : Text → State → State
  with_link target s = record s {
    file_buff = put_zero (length target) (cut_dirname (overwrite target s.file_buff));
  }

  abbrev pub link_dir : Text → State → Text
  link_dir target s = dirname (c_string (overwrite target s.file_buff))

  abbrev pub show_answer : Link → Text → State → State
  show_answer link target s = elim (files.stat s.process.path) [
    | none ↦ with_link target s
    | some st ↦ cut_path s.process.parent_length (
        print matches o (link_fd link) (file_type st.st_mode) (decimal st.st_ino)
          (link_dir target s) (with_link target s))
  ]

  abbrev pub show_denied : Link → State → State
  show_denied link s =
      cut_path s.process.parent_length
        (print matches o (link_fd link) (codes "unknown") [] s.process.path s)

  -- With the path of the link in place; `none` is a `strcpy` behind the end of `path`. A failure of
  -- `stat` returns at once.
  unfoldable pub show_link : Link → State → Option State
  show_link link s = elim (files.readlink s.process.path) [
    | none ↦ some (show_denied link (strncat denied s))
    | some target ↦ elim (fits (link_dir target s)) [
      | false ↦ none
      | true ↦ some (show_answer link target s)
    ]
  ]

  unfoldable pub get_file : Link → State → Option State
  get_file link s = show_link link (strncat (link_name link) s)
