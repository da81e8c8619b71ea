-- ===== src/Lsof/Dump/Rows.antt =====
-- Which rows lsof_dumpinfo of hw1/hw1.c prints for a process.
use nctu_unix.Base.{ℕ, ◌≤◌, ◌≡◌, ◌≢◌, Bool, List, [], ◌∷◌, ◌++◌, Option, some, length, map, codes}
use nctu_unix.Lsof.Options.{Text, Options}
use nctu_unix.Lsof.Row.{Row}
use nctu_unix.Lsof.Process.{Files, Process, State}
use nctu_unix.Lsof.Files.{cwd, root, exe}
use nctu_unix.Lsof.Files.Path.{IsShown}
use nctu_unix.Lsof.Maps.Ends.{AllComplete, AllAnonymous, zero_inode}
use nctu_unix.Lsof.Fds.Entries.{AllOpen, Stops, fd_of}
use nctu_unix.Lsof.Dump.{first_line, proc_path, started, then_link}
use nctu_unix.Lsof.Maps.Rows.{AllMapped}

-- One row for a link, with its label.
abbrev Labelled : Text → List Row → Type 0
Labelled fd rows = map fd_of rows ≡ fd ∷ []

-- The rows of the three links, those of mapped files, and those of the descriptors `fds`.
pub record OfProcess (fds : List Text) (rows : List Row) : Type 0 where
  pub links : List Row
  pub maps : List Row
  pub fd_rows : List Row
  pub all : rows ≡ links ++ (maps ++ fd_rows)
  pub link_fds : map fd_of links ≡ codes "cwd" ∷ codes "rtd" ∷ codes "txt" ∷ []
  pub are_mapped : AllMapped maps
  pub in_order : map fd_of fd_rows ≡ fds

module _ (files : Files) (matches : Text → Text → Bool) (o : Options)
    (junk_inode junk_file : ℕ → Text) (pid : ℕ) where
  abbrev pub dir : Text
  dir = proc_path files matches o junk_inode junk_file pid

  -- What the run asks of /proc.
  pub record IsReadable (name : Text) (mapped last front rest : List Text) : Type 0 where
    pub status : List Text
    pub status_read : files.lines (dir ++ codes "status") ≡ some status
    pub named : first_line status ≡ some name
    pub cwd_shown : IsShown files dir cwd
    pub root_shown : IsShown files dir root
    pub exe_shown : IsShown files dir exe
    pub maps_read : files.lines (dir ++ codes "maps") ≡ some (mapped ++ last)
    pub not_seen : junk_inode pid ≢ zero_inode
    pub complete : AllComplete mapped
    pub anonymous : AllAnonymous last
    pub enough : 4 ≤ length last
    pub entries_read : files.entries (dir ++ codes "fd/") ≡ some (front ++ rest)
    pub are_open : AllOpen files (dir ++ codes "fd/") front
    pub stops : Stops files matches o (dir ++ codes "fd/") rest

  abbrev begun : Text → Process
  begun name = started files matches o junk_inode junk_file pid name

  abbrev AreLinks : List Text → List Row → Type 0
  AreLinks fds rows = map fd_of rows ≡ fds

  abbrev behind_links : State → Option State
  behind_links s = then_link files matches o junk_inode junk_file exe (
      then_link files matches o junk_inode junk_file root
        (then_link files matches o junk_inode junk_file cwd (some s)))
