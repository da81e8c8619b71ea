-- ===== src/Lsof/Row.antt =====
-- `print_info` and the names of file types and modes of hw1/hw1.c.
pub mod Filter
pub mod Letter
use nctu_unix.Base.{
  ℕ, ◌==◌, ◌*◌, bit_and, Bool, true, false, ◌&&◌, not, if◌then◌else◌, List, [], ◌∷◌, ◌++◌, codes,
  eq_text,
}
use nctu_unix.Lsof.Options.{Text, Options}

-- `struct pid_info_t`, as far as a row shows it.
pub record PidInfo : Type 0 where
  pub pid : ℕ
  pub user : Text
  pub cmdline : Text

pub record Row : Type 0 where
  pub info : PidInfo
  pub fd : Text
  pub type : Text
  pub inode : Text
  pub file : Text

-- `matches pattern text` stands for `regcomp` and `regexec` with an answer that is not REG_NOMATCH.
module _ (matches : Text → Text → Bool) where
  -- `check_cond`.
  abbrev pub check_cond0 : Options → Row → Bool
  check_cond0 o row = if o.option0 then not (matches o.arg1 row.info.cmdline) else false

  abbrev pub check_cond1 : Options → Row → Bool
  check_cond1 o row = if o.option1 then not (eq_text row.type o.arg2) else false

  abbrev pub check_cond2 : Options → Row → Bool
  check_cond2 o row = if o.option2 then not (matches o.arg3 row.file) else false

  -- The rows that are printed, behind those that were.
  unfoldable pub print_info : Options → Row → List Row → List Row
  print_info o row out =
      if not (check_cond0 o row) && not (check_cond1 o row) && not (check_cond2 o row)
      then out ++ (row ∷ [])
      else out

-- `switch (file_st.st_mode & S_IFMT)`.
abbrev pub s_ifmt : ℕ
s_ifmt = 0o170000

unfoldable pub file_type : ℕ → Text
file_type st_mode =
    if bit_and st_mode s_ifmt == 0o040000
    then codes "DIR"
    else if bit_and st_mode s_ifmt == 0o100000
    then codes "REG"
    else if bit_and st_mode s_ifmt == 0o020000
    then codes "CHR"
    else if bit_and st_mode s_ifmt == 0o010000
    then codes "FIFO"
    else if bit_and st_mode s_ifmt == 0o140000
    then codes "SOCK"
    else codes "unknown"

-- The letter behind a descriptor.
unfoldable pub descriptor : Text → ℕ → Text
descriptor d_name st_mode =
    if bit_and st_mode 0o600 == 0o600
    then d_name ++ codes "u"
    else if bit_and st_mode 0o600 == 0o400
    then d_name ++ codes "r"
    else if bit_and st_mode 0o600 == 0o200
    then d_name ++ codes "w"
    else d_name
