-- ===== src/LsofCpp/Maps.antt =====
-- `file_maps` of hw1/hw1.cpp: the files that a process has mapped.
use nctu_unix.Base.{Bool, ◌&&◌, not, if◌then◌else◌, List, [], ◌∷◌, ◌++◌, codes, eq_text}
use nctu_unix.Base.Numbers.{is_space, decimal}
use nctu_unix.LsofCpp.Options.{Text, Filters}
use nctu_unix.LsofCpp.Result.{Process}
use nctu_unix.LsofCpp.Links.{Stat, Answer, value, error, Files, State, after, type_of, print}

-- The words that `>>` takes from a line.
abbrev pub word_then : Text → List Text → List Text
word_then [] words = words
word_then (c ∷ cs) words = (c ∷ cs) ∷ words

unfoldable pub words_from : Text → Text → List Text
words_from word [] = word_then word []
words_from word (c ∷ cs) =
    let next = word_then word (words_from [] cs) in
    let more = words_from (word ++ (c ∷ [])) cs in if is_space c then next else more

-- The strings that are read, which a line with too few words leaves as they were. `addr` and
-- `permission` are not used.
pub record Fields : Type 0 where
  pub addr : Text
  pub permission : Text
  pub offset : Text
  pub device : Text
  pub inode : Text
  pub pathname : Text

-- The next word, or what the string held.
abbrev pub first_or : Text → List Text → Text
first_or old [] = old
first_or old (w ∷ ws) = w

abbrev pub others : List Text → List Text
others [] = []
others (w ∷ ws) = ws

abbrev pub read_fields : List Text → Fields → Fields
read_fields words f = record {
  addr = first_or f.addr words;
  permission = first_or f.permission (others words);
  offset = first_or f.offset (others (others words));
  device = first_or f.device (others (others (others words)));
  inode = first_or f.inode (others (others (others (others words))));
  pathname = first_or f.pathname (others (others (others (others (others words)))));
}

abbrev pub no_fields : Fields
no_fields = record {
  addr = [];
  permission = [];
  offset = [];
  device = [];
  inode = [];
  pathname = [];
}

-- The first mapping of a file that is not the last one shown.
abbrev pub is_shown : Fields → Process → Bool
is_shown f file =
    eq_text f.offset (codes "00000000")
    && not (eq_text f.inode (codes "0"))
    && not (eq_text f.device (codes "00:00"))
    && not (eq_text f.inode file.inode)

abbrev pub type_if : Answer Stat → Process → Process
type_if (value st) file = record file { inode = decimal st.st_ino; type = type_of st.st_mode }
type_if (error e) file = file

-- "Avoid printing one unnecessary line."
abbrev pub inode_if : Answer Stat → Process → Process
inode_if (value st) file = record file { inode = decimal st.st_ino }
inode_if (error e) file = file

module _ (files : Files) (matches : Text → Text → Bool) (o : Filters) where
  unfoldable pub lines_loop : List Text → Fields → Process → State → State
  lines_loop [] f file s = s
  lines_loop (line ∷ lines) f file s =
      let f' = read_fields (words_from [] line) f in
      let shown = record file { inode = f'.inode; name = f'.pathname } in
      let next = lines_loop lines f' shown (print files matches o shown s) in
      let same = lines_loop lines f' file s in if is_shown f' file then next else same

  abbrev pub show_lines : Answer (List Text) → Process → State → State
  show_lines (value lines) file s = lines_loop lines no_fields file s
  show_lines (error e) file s = s

  unfoldable pub file_maps : Process → State → State
  file_maps file s =
      let stat = files.stat (file.path ++ file.dir) in
      let exe = files.stat (file.path ++ codes "exe") in
      let maps = files.lines (file.path ++ codes "maps") in
      show_lines maps (record (inode_if exe (type_if stat file)) { fd = codes "mem" })
        (after maps (after exe (after stat s)))
