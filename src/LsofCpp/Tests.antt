-- ===== src/LsofCpp/Tests.antt =====
-- The functions of hw1/hw1.cpp on small inputs.
use nctu_unix.Base.{◌++◌}
use nctu_unix.LsofCpp.Main.{show_all, nothing}
use nctu_unix.LsofCpp.Main.Links.{IsLink}
use nctu_unix.LsofCpp.Main.Shown.{AllSame, show_all_links}
use nctu_unix.LsofCpp.Links.{State}
use nctu_unix.Base.{◌≡◌, refl, true, List, [], ◌∷◌, some, codes, eq_text, arith}
use nctu_unix.Base.Numbers.{leading, decimal}
use nctu_unix.Lsof.Options.{Options, no_options, parse, options}
use nctu_unix.Lsof.Options.Last.{Setting, arguments}
use nctu_unix.LsofCpp.Options.{Text, Filters, no_filters, opt_c, filters, options_loop}
use nctu_unix.LsofCpp.Options.Same.{letters, as_filters, same_options}
use nctu_unix.LsofCpp.Result.{Process, deleted, remove_first, strip, shown_file, print_result}
use nctu_unix.LsofCpp.Result.Deleted.{Occurs}
use nctu_unix.LsofCpp.Links.{value, Files, file_type, type_of}
use nctu_unix.LsofCpp.Maps.{words_from, lines_loop, file_maps}
use nctu_unix.LsofCpp.Fd.{file_fd, fd_loop, with_letter}
use nctu_unix.LsofCpp.Main.{main, proc_loop, lsof}
use nctu_unix.LsofCpp.Main.Blocks.{printed, Blocks, main_rows}

-- -t REG -c vi
abbrev settings : List Setting
settings =
    record { text = codes "-t"; value = codes "REG" }
    ∷ record { text = codes "-c"; value = codes "vi" }
    ∷ []

same_options_example :
    (o : Options) × (parse (arguments settings) no_options ≡ options o)
    × (options_loop (letters settings) 0 (arguments settings) no_filters ≡ filters (as_filters o))
same_options_example = same_options settings (
  omega arith,
  λ e. ground (arith, e),
  λ e. refl,
  (omega arith, λ e. ground (arith, e), λ e. absurd (ground (arith, e)), tt),
)

abbrev gone : Process
gone = record {
  pid = 7;
  path = codes "/proc/7/";
  dir = codes "exe";
  cmd = codes "vi";
  user = codes "me";
  type = codes "REG";
  fd = [];
  inode = codes "5";
  name = codes "/a(del(deleted)eted)";
}

abbrev here : Files
here = record {
  stat = λ path. value (record { st_mode = 0o100600; st_ino = 5; st_uid = 0 });
  lstat = λ path. value (record { st_mode = 0o120600; st_ino = 6; st_uid = 0 });
  readlink = λ path. value (codes "/a");
  opendir = λ path. value (codes "7" ∷ codes "self" ∷ []);
  lines = λ path. value [];
  words = λ path. value (codes "7" ∷ codes "(vi)" ∷ []);
  getpwuid = λ uid. some (codes "me");
  strerror = λ e. codes "error";
}

abbrev only_vi : Filters
only_vi = record no_filters { filter0 = true; filtargu0 = codes "vi" }

abbrev entries : List Text
entries = codes "7" ∷ codes "self" ∷ []

abbrev arguments_c : List Text
arguments_c = codes "-c" ∷ codes "vi" ∷ []

abbrev row : Text → Text → Text → Process
row dir fd type = record {
  pid = 7;
  path = codes "/proc/7/";
  dir = dir;
  cmd = codes "vi";
  user = codes "me";
  type = type;
  fd = fd;
  inode = codes "5";
  name = codes "/a";
}

abbrev rows_shown : List Process
rows_shown =
    row (codes "cwd") (codes "cwd") (codes "REG")
    ∷ row (codes "root") (codes "rtd") (codes "REG")
    ∷ row (codes "exe") (codes "txt") (codes "REG")
    ∷ row (codes "fd") (codes "7u") (codes "REG")
    ∷ row (codes "fd") (codes "selfu") (codes "REG")
    ∷ []

main_prints :
    printed here eq_text only_vi (main here eq_text (opt_c ∷ []) arguments_c) ≡ some rows_shown
unfolding main proc_loop lsof file_type file_maps file_fd fd_loop lines_loop print_result shown_file
    strip remove_first type_of with_letter options_loop words_from leading decimal
main_prints = refl

options_read : options_loop (opt_c ∷ []) 0 arguments_c no_filters ≡ filters only_vi
unfolding options_loop
options_read = refl

main_rows_example : Blocks here eq_text only_vi entries rows_shown
main_rows_example =
    main_rows here eq_text only_vi (opt_c ∷ []) arguments_c entries rows_shown options_read refl
      main_prints

-- A process with the number 7, before its links are read.
abbrev process_7 : Process
process_7 = row [] [] []

kept_target : ¬ Occurs deleted (codes "/a")
kept_target ([], behind, e) = ground (arith, e)
kept_target (b ∷ [], behind, e) = ground (arith, e)
kept_target (b ∷ c ∷ [], behind, e) = ground (arith, e)
kept_target (b ∷ c ∷ d ∷ before, behind, e) = ground (arith, e)

show_all_links_example :
    (t : State) × (a b c : Process) × (rows : List Process) × (show_all here eq_text no_filters
        process_7 nothing
      ≡ some t)
    × (t.out ≡ (a ∷ b ∷ c ∷ []) ++ rows)
    × IsLink process_7 (codes "cwd") (codes "/a") a
    × IsLink process_7 (codes "rtd") (codes "/a") b
    × IsLink process_7 (codes "txt") (codes "/a") c
    × AllSame here eq_text process_7 rows
show_all_links_example =
    show_all_links here eq_text process_7 (codes "/a") (codes "/a") (codes "/a") entries nothing
      refl refl refl refl kept_target kept_target kept_target
