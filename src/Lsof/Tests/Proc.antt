-- ===== src/Lsof/Tests/Proc.antt =====
-- The functions of hw1/hw1.c that read /proc, on a small process.
use nctu_unix.Base.{
  ℕ, ◌++◌, ◌≡◌, ◌≢◌, refl, inl, inr, if◌then◌else◌, List, [], ◌∷◌, map, Option, none, some, codes,
  eq_text, arith,
}
use nctu_unix.Lsof.Options.{Text, no_options}
use nctu_unix.Lsof.Row.{Row}
use nctu_unix.Lsof.Process.{Stat, Files, State}
use nctu_unix.Lsof.Maps.{tokens_from, get_maps}
use nctu_unix.Lsof.Maps.Ends.{get_maps_ends, get_maps_fails}
use nctu_unix.Base.Numbers.{decimal}
use nctu_unix.Lsof.Dump.{tab_tokens}
use nctu_unix.Lsof.Dump.Rows.{IsReadable}
use nctu_unix.Lsof.Fds.{get_fds}
use nctu_unix.Lsof.Fds.Entries.{print_all, descriptors, fd_of, get_fds_rows}

abbrev place : Stat
place = record { st_mode = 0o100600; st_ino = 5; st_uid = 0 }

abbrev stat_here : Text → Option Stat
stat_here path = if eq_text path (codes "/proc/7/cwd") then none else some place

abbrev mapped : Text
mapped = codes "0-1 r 0 8:1 5 /bin/a"

abbrev anonymous : Text
anonymous = codes "1-2 r 0 0:0 0"

abbrev tail : List Text
tail = anonymous ∷ anonymous ∷ anonymous ∷ anonymous ∷ []

-- The link `cwd` can be read and its target is gone.
abbrev here : Files
here = record {
  stat = stat_here;
  readlink = λ path. some (codes "/tmp/a");
  lines = λ path. some (mapped ∷ tail);
  entries = λ path. some (codes "." ∷ codes "0" ∷ []);
  getpwuid = λ uid. none;
}

abbrev state : State
state = record {
  process = record {
    pid = 7;
    user = codes "me";
    cmdline = codes "vi";
    path = codes "/proc/7/";
    parent_length = 8;
  };
  file_buff = 0 ∷ 0 ∷ 0 ∷ 0 ∷ 0 ∷ 0 ∷ 0 ∷ 0 ∷ [];
  fd_buff = 0 ∷ 0 ∷ 0 ∷ 0 ∷ 0 ∷ 0 ∷ 0 ∷ 0 ∷ [];
  out = [];
}

differs : [] ≢ codes "0"
differs e = absurd (ground (arith, e))

get_maps_ends_example : (t : State) × (get_maps eq_text no_options here [] [] state ≡ some t)
unfolding tokens_from
get_maps_ends_example =
    get_maps_ends here eq_text no_options [] [] state (mapped ∷ []) tail refl differs
      ((codes "5", refl, inr (codes "/bin/a", refl)), tt) (refl, (refl, (refl, (refl, tt))))
      (omega arith)

-- A file with one line only.
abbrev short : Files
short = record here { lines = λ path. some (mapped ∷ []) }

get_maps_fails_example : get_maps eq_text no_options short [] [] state ≡ none
unfolding tokens_from
get_maps_fails_example =
    get_maps_fails short eq_text no_options [] [] state (mapped ∷ []) refl (omega arith)

abbrev names : List Text
names = codes "." ∷ codes "0" ∷ []

abbrev lines_of : Text → Option (List Text)
lines_of path =
    if eq_text path (codes "/proc/7/status")
    then some ((codes "Name:" ++ (9 ∷ codes "vi")) ∷ [])
    else some (mapped ∷ tail)

-- A process whose files can all be read.
abbrev alive : Files
alive = record here { stat = λ path. some place; lines = lines_of }

abbrev no_inode : ℕ → Text
no_inode pid = []

alive-IsReadable :
    IsReadable alive eq_text no_options no_inode no_inode 7 (codes "vi") (mapped ∷ []) tail names []
unfolding tokens_from tab_tokens decimal
alive-IsReadable = record {
  status = (codes "Name:" ++ (9 ∷ codes "vi")) ∷ [];
  status_read = refl;
  named = refl;
  cwd_shown = inr (codes "/tmp/a", refl, omega arith, (place, refl));
  root_shown = inr (codes "/tmp/a", refl, omega arith, (place, refl));
  exe_shown = inr (codes "/tmp/a", refl, omega arith, (place, refl));
  maps_read = refl;
  not_seen = differs;
  complete = ((codes "5", refl, inr (codes "/bin/a", refl)), tt);
  anonymous = (refl, (refl, (refl, (refl, tt))));
  enough = omega arith;
  entries_read = refl;
  are_open = (
    inl refl,
    (
      inr (record {
        target = codes "/tmp/a";
        st = place;
        reads = refl;
        short = omega arith;
        answers = refl;
      }),
      tt,
    ),
  );
  stops = tt;
}

get_fds_rows_example :
    (u : State) × (rows : List Row) × (get_fds alive eq_text no_options state ≡ some u)
    × (u.out ≡ print_all eq_text no_options rows [])
    × (map fd_of rows ≡ descriptors alive (codes "/proc/7/fd/") names)
unfolding decimal
get_fds_rows_example =
    get_fds_rows alive eq_text no_options state names [] refl alive-IsReadable.are_open tt
      (omega arith)
