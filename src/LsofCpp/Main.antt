-- ===== src/LsofCpp/Main.antt =====
-- `lsof` and `main` of hw1/hw1.cpp.
mod Grown
mod Rows
pub mod Named
pub mod Blocks
pub mod Links
pub mod Shown
use nctu_unix.Base.{
  ℕ, zero, suc, ◌-◌, Bool, ◌==◌, if◌then◌else◌, List, [], ◌∷◌, ◌++◌, Option, none, some, codes,
  length, take,
}
use nctu_unix.Base.Numbers.{decimal, leading}
use nctu_unix.LsofCpp.Options.{
  Text, Filters, no_filters, Opt, Parsed, filters, invalid, fault, options_loop,
}
use nctu_unix.LsofCpp.Result.{Process}
use nctu_unix.LsofCpp.Links.{Stat, Answer, value, error, Files, State, after, file_type}
use nctu_unix.LsofCpp.Maps.{file_maps}
use nctu_unix.LsofCpp.Fd.{is_dots, file_fd}

-- `done`, `exit(1)`, or what C++ leaves undefined; `thrown` is an exception that nothing catches.
pub data Outcome : Type 0 where
  done : State → Outcome
  exited : List Process → Outcome
  undefined thrown : Outcome

abbrev pub finished : Option State → Outcome
finished none = undefined
finished (some s) = done s

-- Two reads into one string: the second word, or the only one.
abbrev pub command : List Text → Text
command [] = []
command (a ∷ []) = a
command (a ∷ b ∷ rest) = b

-- `substr(1, length() - 2)`, which throws on an empty text; for a text of length 1 the count is
-- as large as it can be, and nothing is left.
abbrev pub inner : Text → Option Text
inner [] = none
inner (c ∷ cs) = some (take (length cs - 1) cs)

module _ (files : Files) (matches : Text → Text → Bool) (o : Filters) where
  abbrev pub name_of : Option Text → Text
  name_of none = []
  name_of (some name) = name

  abbrev pub owner : Answer Stat → Text
  owner (error e) = []
  owner (value st) = name_of (files.getpwuid st.st_uid)

  abbrev pub proc_path : ℕ → Text
  proc_path pid = codes "/proc/" ++ (decimal pid ++ codes "/")

  -- The structure with the path, the owner and the command; its other fields are still empty.
  abbrev pub started : ℕ → Text → Process
  started pid cmd = record {
    pid = pid;
    path = proc_path pid;
    dir = [];
    cmd = cmd;
    user = owner (files.stat (proc_path pid));
    type = [];
    fd = [];
    inode = [];
    name = [];
  }

  -- The five calls, each with a copy of the structure.
  abbrev pub show_all : Process → State → Option State
  show_all file s =
      file_fd files matches o (record file { dir = codes "fd" })
        (file_maps files matches o (record file { dir = codes "maps" })
          (file_type files matches o (record file { dir = codes "exe" })
            (file_type files matches o (record file { dir = codes "root" })
              (file_type files matches o (record file { dir = codes "cwd" }) s))))

  abbrev pub show_process : ℕ → Option Text → State → Outcome
  show_process pid none s = thrown
  show_process pid (some cmd) s = finished (show_all (started pid cmd) s)

  unfoldable pub lsof : ℕ → State → Outcome
  lsof pid s =
      let s' = after (files.stat (proc_path pid)) s in
      elim (files.words (proc_path pid ++ codes "stat")) [
        | error e ↦ exited s'.out
        | value words ↦ show_process pid (inner (command words)) s'
      ]

  -- `strtol`, of names with neither a blank nor a sign in front; 0 is no process.
  unfoldable pub proc_loop : List Text → State → Outcome
  proc_loop [] s = done s
  proc_loop (name ∷ names) s =
      let skip = proc_loop names s in
      let rest : Outcome = elim (lsof (leading 10 0 name) s) [
        | done s' ↦ proc_loop names s'
        | exited out ↦ exited out
        | undefined ↦ undefined
        | thrown ↦ thrown
      ] in
      if is_dots name then skip else if leading 10 0 name == 0 then skip else rest

abbrev pub nothing : State
nothing = record { errno = 0; out = [] }

-- `opts` is what `getopt` answers for `argv`, one call after the other.
unfoldable pub main : Files → (Text → Text → Bool) → List Opt → List Text → Outcome
main files matches opts argv = elim (options_loop opts 0 argv no_filters) [
  | invalid ↦ exited []
  | fault ↦ undefined
  | filters o ↦ elim (files.opendir (codes "/proc/")) [
    | error e ↦ undefined
    | value names ↦ proc_loop files matches o names nothing
  ]
]
