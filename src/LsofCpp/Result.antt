-- ===== src/LsofCpp/Result.antt =====
-- `struct process` and `print_result` of hw1/hw1.cpp.
pub mod Deleted
use nctu_unix.Base.{
  ℕ, zero, suc, Bool, true, false, ◌&&◌, ◌==◌, if◌then◌else◌, List, [], ◌∷◌, ◌++◌, Option, none,
  some, codes, eq_text, length,
}
use nctu_unix.LsofCpp.Options.{Text, Filters}

pub record Process : Type 0 where
  pub pid : ℕ
  pub path : Text
  pub dir : Text
  pub cmd : Text
  pub user : Text
  pub type : Text
  pub fd : Text
  pub inode : Text
  pub name : Text

-- "(deleted)".
abbrev pub deleted : Text
deleted = codes "(deleted)"

-- What stands behind the prefix.
abbrev pub after_prefix : Text → Text → Option Text
after_prefix [] text = some text
after_prefix (p ∷ ps) [] = none
after_prefix (p ∷ ps) (c ∷ text) = if p == c then after_prefix ps text else none

abbrev pub put_back : ℕ → Option Text → Option Text
put_back c none = none
put_back c (some text) = some (c ∷ text)

-- `replace(find("(deleted)"), 9, "")`; `none` where there is no such part.
unfoldable pub remove_first : Text → Option Text
remove_first [] = none
remove_first (c ∷ text) =
    let rest = put_back c (remove_first text) in
    elim (after_prefix deleted (c ∷ text)) [ some left ↦ some left | none ↦ rest ]

-- The loop, with as many rounds as the name has characters.
unfoldable pub strip : ℕ → Process → Process
strip zero file = file
strip (suc n) file = elim (remove_first file.name) [
  | none ↦ file
  | some name ↦ strip n (record file { name = name; fd = codes "DEL"; type = codes "unknown" })
]

-- The name in the column FD.
abbrev pub labelled : Process → Process
labelled file =
    if eq_text file.dir (codes "cwd")
    then record file { fd = codes "cwd" }
    else if eq_text file.dir (codes "root")
    then record file { fd = codes "rtd" }
    else if eq_text file.dir (codes "exe")
    then record file { fd = codes "txt" }
    else file

unfoldable pub shown_file : Process → Process
shown_file file = strip (length file.name) (labelled file)

-- `matches argument text` stands for `regex_match` with the argument between two `.*`.
module _ (matches : Text → Text → Bool) where
  abbrev pub accepts : Bool → Text → Text → Bool
  accepts on argument text = if on then matches argument text else true

  abbrev pub matched : Filters → Process → Bool
  matched o file =
      accepts o.filter0 o.filtargu0 file.cmd
      && accepts o.filter1 o.filtargu1 file.type
      && accepts o.filter2 o.filtargu2 file.name

  -- A row is printed behind those that were.
  unfoldable pub print_result : Filters → Process → List Process → List Process
  print_result o file out = if matched o file then out ++ (shown_file file ∷ []) else out
