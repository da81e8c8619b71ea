-- ===== src/LsofCpp/Options.antt =====
-- `filter`, `filtargu` and the loop over `getopt` in `main` of hw1/hw1.cpp.
pub mod Same
use nctu_unix.Base.{
  ℕ, zero, suc, ◌+◌, ◌*◌, Bool, true, false, ◌||◌, if◌then◌else◌, List, [], ◌∷◌, Option, none, some,
  codes, eq_text, get_elem?,
}

abbrev pub Text : Type 0
Text = List ℕ

pub record Filters : Type 0 where
  pub filter0 : Bool
  pub filter1 : Bool
  pub filter2 : Bool
  pub filtargu0 : Text
  pub filtargu1 : Text
  pub filtargu2 : Text

abbrev pub no_filters : Filters
no_filters = record {
  filter0 = false;
  filter1 = false;
  filter2 = false;
  filtargu0 = [];
  filtargu1 = [];
  filtargu2 = [];
}

-- What `getopt` answers: an option letter, or `?`.
pub data Opt : Type 0 where
  opt_c opt_t opt_f opt_other : Opt

-- `invalid` prints "Invalid TYPE option." and exits; `fault` makes a string of `argv[argc]`.
pub data Parsed : Type 0 where
  filters : Filters → Parsed
  invalid fault : Parsed

abbrev pub is_type : Text → Bool
is_type value =
    eq_text value (codes "REG")
    || eq_text value (codes "CHR")
    || eq_text value (codes "DIR")
    || eq_text value (codes "FIFO")
    || eq_text value (codes "SOCK")

abbrev pub set_filter : Opt → Text → Filters → Filters
set_filter opt_c value o = record o { filter0 = true; filtargu0 = value }
set_filter opt_t value o = record o { filter1 = true; filtargu1 = value }
set_filter opt_f value o = record o { filter2 = true; filtargu2 = value }
set_filter opt_other value o = o

abbrev pub refused : Opt → Text → Bool
refused opt_t value = if is_type value then false else true
refused opt_c value = false
refused opt_f value = false
refused opt_other value = false

abbrev pub reads : Opt → Bool
reads opt_other = false
reads opt_c = true
reads opt_t = true
reads opt_f = true

-- The i-th option is taken to have its value at `argv[2 * i + 2]`; `argv` is here without the
-- program's name.
unfoldable pub options_loop : List Opt → ℕ → List Text → Filters → Parsed
options_loop [] i argv o = filters o
options_loop (opt ∷ opts) i argv o =
    let skip = options_loop opts (i + 1) argv o in
    if reads opt
    then elim (get_elem? argv (2 * i + 1)) [
      | none ↦ fault
      | some value ↦
          let rest = options_loop opts (i + 1) argv (set_filter opt value o) in
          if refused opt value then invalid else rest
    ]
    else skip
