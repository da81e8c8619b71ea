-- ===== src/Lsof/Options.antt =====
-- The options of hw1/hw1.c: `option`, `arg1`, `arg2`, `arg3` and the loop of `main` over `argv`.
pub mod Last
use nctu_unix.Base.{
  ℕ, Bool, true, false, ◌||◌, ltb, if◌then◌else◌, List, [], ◌∷◌, Option, none, some, codes, length,
  eq_text,
}

abbrev pub Text : Type 0
Text = List ℕ

pub record Options : Type 0 where
  pub option0 : Bool
  pub option1 : Bool
  pub option2 : Bool
  pub arg1 : Text
  pub arg2 : Text
  pub arg3 : Text

-- The globals before `main`.
abbrev pub no_options : Options
no_options = record {
  option0 = false;
  option1 = false;
  option2 = false;
  arg1 = [];
  arg2 = [];
  arg3 = [];
}

-- `invalid` prints "Invalid TYPE option." and ends; `fault` reads `argv[argc]`, which is NULL, or
-- copies a text that leaves no room for its final 0.
pub data Parsed : Type 0 where
  options : Options → Parsed
  invalid fault : Parsed

-- `strncpy` into a buffer of BUF_MAX bytes.
abbrev pub buf_max : ℕ
buf_max = 1024

abbrev pub is_type : Text → Bool
is_type value =
    eq_text value (codes "REG")
    || eq_text value (codes "CHR")
    || eq_text value (codes "DIR")
    || eq_text value (codes "FIFO")
    || eq_text value (codes "SOCK")
    || eq_text value (codes "unknown")

pub data Flag : Type 0 where
  flag_c flag_t flag_f other : Flag

abbrev pub flag : Text → Flag
flag text =
    if eq_text text (codes "-c")
    then flag_c
    else if eq_text text (codes "-t")
    then flag_t
    else if eq_text text (codes "-f")
    then flag_f
    else other

-- The option that a flag sets.
abbrev pub with_option : Flag → Text → Options → Options
with_option flag_c value o = record o { option0 = true; arg1 = value }
with_option flag_t value o = record o { option1 = true; arg2 = value }
with_option flag_f value o = record o { option2 = true; arg3 = value }
with_option other value o = o

-- One round of the loop, with the text behind the flag; `none` is the end of the program.
abbrev pub round : Flag → Text → Options → Option Options
round flag_c value o = some (with_option flag_c value o)
round flag_t value o = if is_type value then some (with_option flag_t value o) else none
round flag_f value o = some (with_option flag_f value o)
round other value o = some o

abbrev pub reads : Flag → Bool
reads flag_c = true
reads flag_t = true
reads flag_f = true
reads other = false

unfoldable pub parse : List Text → Options → Parsed
parse [] o = options o
parse (text ∷ []) o = if reads (flag text) then fault else options o
parse (text ∷ value ∷ rest) o = elim (round (flag text) value o) [
  | none ↦ invalid
  | some o' ↦
      let parsed = parse rest o' in
      if reads (flag text) then (if ltb (length value) buf_max then parsed else fault) else parsed
]

-- `argc >= 3`; the list is without the program's name.
abbrev pub main_options : List Text → Parsed
main_options argv = if ltb (length argv) 2 then options no_options else parse argv no_options
