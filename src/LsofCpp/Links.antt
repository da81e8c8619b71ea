-- ===== src/LsofCpp/Links.antt =====
-- `file_type` of hw1/hw1.cpp, and the state and the calls that its functions share.
use nctu_unix.Base.{
  ℕ, ◌≡◌, refl, ◌⊎◌, inl, inr, Bool, ◌==◌, bit_and, if◌then◌else◌, List, [], ◌++◌, Option, codes,
}
use nctu_unix.Base.Numbers.{decimal}
use nctu_unix.LsofCpp.Options.{Text, Filters}
use nctu_unix.LsofCpp.Result.{Process, print_result}

pub record Stat : Type 0 where
  pub st_mode : ℕ
  pub st_ino : ℕ
  pub st_uid : ℕ

-- A result, or the value that `errno` gets.
pub data Answer (A : Type 0) : Type 0 where
  value : A → Answer A
  error : ℕ → Answer A

pub Answer-cases :
    {A : Type 0} (a : Answer A) → ((x : A) × (a ≡ value x)) ⊎ ((e : ℕ) × (a ≡ error e))
Answer-cases (value x) = inl (x, refl)
Answer-cases (error e) = inr (e, refl)

-- What the calls answer for a path: the whole run sees one state of /proc. `lines` are those of
-- a file, and `words` the words of one.
pub record Files : Type 0 where
  pub stat : Text → Answer Stat
  pub lstat : Text → Answer Stat
  pub readlink : Text → Answer Text
  pub opendir : Text → Answer (List Text)
  pub lines : Text → Answer (List Text)
  pub words : Text → Answer (List Text)
  pub getpwuid : ℕ → Option Text
  pub strerror : ℕ → Text

-- `errno`, which a call that succeeds leaves alone, and the rows printed.
pub record State : Type 0 where
  pub errno : ℕ
  pub out : List Process

abbrev pub enoent : ℕ
enoent = 2

abbrev pub eacces : ℕ
eacces = 13

-- `errno` after a call.
abbrev pub after : {A : Type 0} → Answer A → State → State
after (value a) s = s
after (error e) s = record s { errno = e }

abbrev pub s_ifmt : ℕ
s_ifmt = 0o170000

-- S_ISDIR, S_ISREG, S_ISCHR, S_ISFIFO and S_ISSOCK.
unfoldable pub type_of : ℕ → Text
type_of st_mode =
    if bit_and st_mode s_ifmt == 0o040000
    then codes "DIR"
    else if bit_and st_mode s_ifmt == 0o100000
    then codes "REG"
    else if bit_and st_mode s_ifmt == 0o020000
    then codes "CHR"
    else if bit_and st_mode s_ifmt == 0o010000
    then codes "FIFO"
    else if bit_and st_mode s_ifmt == 0o140000
    then codes "SOCK"
    else codes "unknown"

abbrev pub with_stat : Answer Stat → Process → Process
with_stat (value st) file = record file { inode = decimal st.st_ino; type = type_of st.st_mode }
with_stat (error e) file = record file { type = codes "unknown"; inode = [] }

module _ (files : Files) (matches : Text → Text → Bool) (o : Filters) where
  abbrev pub print : Process → State → State
  print file s = record s { out = print_result matches o file s.out }

  abbrev pub show_target : Answer Text → Process → State → State
  show_target (value target) file s = print (record file { name = target }) s
  show_target (error e) file s =
      if e == enoent
      then s
      else print
          (record file {
            name =
                file.path
                ++ (file.dir ++ (codes " (readlink: " ++ (files.strerror e ++ codes ")")));
          })
          s

  unfoldable pub file_type : Process → State → State
  file_type file s =
      let stat = files.stat (file.path ++ file.dir) in
      let link = files.readlink (file.path ++ file.dir) in
      show_target link (with_stat stat file) (after link (after stat s))
