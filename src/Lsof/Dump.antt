-- ===== src/Lsof/Dump.antt =====
-- `lsof_dumpinfo` and `main` of hw1/hw1.c.
pub mod Rows
use nctu_unix.Base.{
  ℕ, ◌-◌, Bool, true, false, ◌||◌, ◌&&◌, ◌==◌, leb, ltb, ◌^◌, if◌then◌else◌, List, [], ◌∷◌, ◌++◌,
  Option, none, some, length, codes, take,
}
use nctu_unix.Base.Numbers.{decimal, leading}
use nctu_unix.Lsof.Options.{Text, Options, options, invalid, fault, main_options}
use nctu_unix.Lsof.Row.{Row}
use nctu_unix.Lsof.Process.{Stat, Files, Process, State, user_max, cmd_max}
use nctu_unix.Lsof.Files.{Link, cwd, root, exe, get_file}
use nctu_unix.Lsof.Maps.{word_then, get_maps}
use nctu_unix.Lsof.Fds.{is_dots, get_fds}

-- "\t\n", for the first line of the status file.
abbrev pub is_tab : ℕ → Bool
is_tab c = c == 9 || c == 10

unfoldable pub tab_tokens : Text → Text → List Text
tab_tokens word [] = word_then word []
tab_tokens word (c ∷ cs) =
    let next = word_then word (tab_tokens [] cs) in
    let more = tab_tokens (word ++ (c ∷ [])) cs in if is_tab c then next else more

-- The second token of the first line; `none` is a `strncpy` from NULL.
abbrev pub second : List Text → Option Text
second [] = none
second (a ∷ []) = none
second (a ∷ b ∷ rest) = some b

abbrev pub first_line : List Text → Option Text
first_line [] = none
first_line (line ∷ lines) = second (tab_tokens [] line)

-- `junk_inode` and `junk_file`: what the buffers of `get_maps` hold at first, for each process.
module _ (files : Files) (matches : Text → Text → Bool) (o : Options)
    (junk_inode junk_file : ℕ → Text) where
  -- `%d` of `(int)pidstat.st_uid`.
  abbrev pub signed : ℕ → Text
  signed uid = if ltb uid (2 ^ 31) then decimal uid else b'-' ∷ decimal (2 ^ 32 - uid)

  -- The name of the owner, or the number where there is no name.
  abbrev pub owner : Option Stat → Text
  owner none = codes "unknown"
  owner (some st) = elim (files.getpwuid st.st_uid) [
    | none ↦ take (user_max - 1) (signed st.st_uid)
    | some name ↦ take user_max name
  ]

  abbrev pub proc_path : ℕ → Text
  proc_path pid = codes "/proc/" ++ (decimal pid ++ codes "/")

  -- `info` before the first link is read.
  abbrev pub started : ℕ → Text → Process
  started pid name = record {
    pid = pid;
    user = owner (files.stat (proc_path pid));
    cmdline = take cmd_max name;
    path = proc_path pid;
    parent_length = length (proc_path pid);
  }

  abbrev pub then_fds : Option State → Option State
  then_fds none = none
  then_fds (some s) = get_fds files matches o s

  abbrev pub then_link : Link → Option State → Option State
  then_link link none = none
  then_link link (some s) = get_file files matches o link s

  abbrev pub then_maps : ℕ → Option State → Option State
  then_maps pid none = none
  then_maps pid (some s) = get_maps matches o files (junk_inode pid) (junk_file pid) s

  -- `info` is a local structure: what it held goes with it.
  unfoldable pub lsof_dumpinfo : ℕ → State → Option State
  lsof_dumpinfo pid s = elim (files.lines (proc_path pid ++ codes "status")) [
    | none ↦ some s
    | some lines ↦ elim (first_line lines) [
      | none ↦ none
      | some name ↦ then_fds (
          then_maps pid (
            then_link exe
              (then_link root (then_link cwd (some (record s { process = started pid name }))))))
    ]
  ]

  -- The whole name is a number: entries of /proc start with neither a blank nor a sign.
  abbrev pub all_digits : Text → Bool
  all_digits [] = true
  all_digits (c ∷ cs) = leb b'0' c && leb c b'9' && all_digits cs

  abbrev pub is_pid : Text → Bool
  is_pid [] = false
  is_pid (c ∷ cs) = all_digits (c ∷ cs)

  abbrev pub dump_entry : Text → State → Option State
  dump_entry name s =
      if is_dots name
      then some s
      else if is_pid name
      then lsof_dumpinfo (leading 10 0 name) s
      else some s

  unfoldable pub proc_loop : List Text → State → Option State
  proc_loop [] s = some s
  proc_loop (name ∷ names) s = elim (dump_entry name s) [
    | none ↦ none
    | some s' ↦ proc_loop names s'
  ]

-- No row has been printed, and the buffers are zero.
abbrev no_process : Process
no_process = record { pid = 0; user = []; cmdline = []; path = []; parent_length = 0 }

abbrev pub initial : State
initial = record { process = no_process; file_buff = []; fd_buff = []; out = [] }

-- What `main` ends with: nothing where /proc cannot be opened, a message, or the rows.
pub data Ended : Type 0 where
  no_proc bad_type undefined : Ended
  printed : List Row → Ended

abbrev pub ended : Option State → Ended
ended none = undefined
ended (some s) = printed s.out

unfoldable pub main : Files → (Text → Text → Bool) → (ℕ → Text) → (ℕ → Text) → List Text → Ended
main files matches junk_inode junk_file argv = elim (files.entries (codes "/proc")) [
  | none ↦ no_proc
  | some names ↦ elim (main_options argv) [
    | options o ↦ ended (proc_loop files matches o junk_inode junk_file names initial)
    | invalid ↦ bad_type
    | fault ↦ undefined
  ]
]
