-- ===== src/Lsof/Tests.antt =====
-- The options and rows of hw1/hw1.c, on small inputs.
mod Proc
use nctu_unix.Base.{◌≡◌, refl, true, List, [], ◌∷◌, codes, eq_text, arith}
use nctu_unix.Lsof.Options.{Options, no_options, parse, options}
use nctu_unix.Lsof.Options.Last.{Setting, arguments, parse-last}
use nctu_unix.Lsof.Row.{Row, print_info}
use nctu_unix.Lsof.Row.Filter.{Wanted, print_info_lem}

-- -c bash -t REG -x y -c vi
abbrev settings : List Setting
settings =
    record { text = codes "-c"; value = codes "bash" }
    ∷ record { text = codes "-t"; value = codes "REG" }
    ∷ record { text = codes "-x"; value = codes "y" }
    ∷ record { text = codes "-c"; value = codes "vi" }
    ∷ []

parse-last_example :
    parse (arguments settings) no_options
    ≡ options (record no_options {
      option0 = true;
      option1 = true;
      arg1 = codes "vi";
      arg2 = codes "REG";
    })
parse-last_example = parse-last settings no_options (
  omega arith,
  λ e. absurd (ground (arith, e)),
  (
    omega arith,
    λ e. refl,
    (
      omega arith,
      λ e. absurd (ground (arith, e)),
      (omega arith, λ e. absurd (ground (arith, e)), tt),
    ),
  ),
)

abbrev row : Row
row = record {
  info = record { pid = 7; user = codes "root"; cmdline = codes "vi" };
  fd = codes "3u";
  type = codes "REG";
  inode = codes "12";
  file = codes "/tmp";
}

abbrev only_regular : Options
only_regular = record no_options { option1 = true; arg2 = codes "REG" }

print_info_lem_example :
    (Wanted eq_text only_regular row → print_info eq_text only_regular row [] ≡ row ∷ [])
    × ((Wanted eq_text only_regular row → ⊥) → print_info eq_text only_regular row [] ≡ [])
print_info_lem_example = print_info_lem eq_text only_regular row []
