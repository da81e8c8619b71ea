-- ===== src/Lsof/Maps.antt =====
-- `get_maps` of hw1/hw1.c: the files that a process has mapped.
pub mod Ends
pub mod Rows
use nctu_unix.Base.{
  ℕ, zero, suc, ◌+◌, Bool, true, false, ◌||◌, ◌==◌, leb, if◌then◌else◌, List, [], ◌∷◌, ◌++◌, Option,
  none, some, get_elem?, codes, eq_text, take,
}
use nctu_unix.Lsof.Options.{Text, Options}
use nctu_unix.Lsof.Process.{Files, Process, State, strncat, cut_path, print}

-- " \t\n".
abbrev pub is_blank : ℕ → Bool
is_blank c = c == 32 || c == 9 || c == 10

-- The word read so far, if there is one, before the others.
abbrev pub word_then : Text → List Text → List Text
word_then [] words = words
word_then (c ∷ cs) words = (c ∷ cs) ∷ words

-- The tokens that `strtok` gives one after the other.
unfoldable pub tokens_from : Text → Text → List Text
tokens_from word [] = word_then word []
tokens_from word (c ∷ cs) =
    let next = word_then word (tokens_from [] cs) in
    let more = tokens_from (word ++ (c ∷ [])) cs in if is_blank c then next else more

abbrev pub tokens : Text → List Text
tokens line = tokens_from [] line

-- The local buffers and the count; the buffers hold nothing defined before the first row.
pub record Seen : Type 0 where
  pub pre_inode : Text
  pub pre_file : Text
  pub break_condition : ℕ

module _ (matches : Text → Text → Bool) (o : Options) where
  -- The token behind the path decides.
  abbrev pub print_map : Option Text → Text → Text → State → State
  print_map none inode file s = print matches o (codes "mem") (codes "REG") inode file s
  print_map (some token) inode file s =
      if eq_text token (codes "(deleted)")
      then print matches o (codes "DEL") (codes "unknown") inode file s
      else s

  -- A line whose inode is neither the last one nor 0; without a path `strncpy` reads NULL.
  abbrev pub map_file : Text → Option Text → Option Text → Seen → State → Option (Seen × State)
  map_file inode none deleted seen s = none
  map_file inode (some file) deleted seen s =
      if eq_text file seen.pre_file
      then some (record seen { break_condition = 0 }, s)
      else some (
        record { pre_inode = inode; pre_file = file; break_condition = 0 },
        print_map deleted inode file s,
      )

  -- One line, of which the fifth token is the inode; `none` is a `strncpy` from NULL.
  unfoldable pub map_line : List Text → Seen → State → Option (Seen × State)
  map_line words seen s = elim (get_elem? words 4) [
    | none ↦ none
    | some inode ↦
        if eq_text inode seen.pre_inode
        then some (seen, s)
        else if eq_text inode (codes "0")
        then some (record seen { break_condition = seen.break_condition + 1 }, s)
        else map_file inode (get_elem? words 5) (get_elem? words 6) seen s
  ]

  -- At the end of the file `getline` answers -1, which the loop takes for a line: it goes on with
  -- the last one, of which one token is left, and reads NULL.
  unfoldable pub maps_loop : List Text → Seen → State → Option State
  maps_loop [] seen s = if leb 4 seen.break_condition then some s else none
  maps_loop (line ∷ lines) seen s =
      if leb 4 seen.break_condition then some s else elim (map_line (tokens line) seen s) [
        | none ↦ none
        | some (seen', s') ↦ maps_loop lines seen' s'
      ]

  -- What the two buffers hold at first.
  module _ (files : Files) (junk_inode junk_file : Text) where
    abbrev pub nothing_seen : Seen
    nothing_seen = record { pre_inode = junk_inode; pre_file = junk_file; break_condition = 0 }

    abbrev pub maps_done : Option State → Option State
    maps_done none = none
    maps_done (some s) = some (cut_path s.process.parent_length s)

    unfoldable pub get_maps : State → Option State
    get_maps s =
        let t = strncat (codes "maps") s in
        elim (files.lines t.process.path) [
          | none ↦ some (cut_path t.process.parent_length t)
          | some lines ↦ maps_done (maps_loop lines nothing_seen t)
        ]
