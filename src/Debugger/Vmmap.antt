-- ===== src/Debugger/Vmmap.antt =====
-- `vmmap` of hw4/hw4.cpp: the lines of /proc/PID/maps, taken apart by `strtok`.
use nctu_unix.Base.{
  ℕ, Bool, false, ◌||◌, ◌==◌, not, if◌then◌else◌, List, [], ◌∷◌, ◌++◌, Option, none, some,
}
use nctu_unix.Debugger.State.{
  Kernel, M, fault, stray_line, pure, ◌>>=◌, ◌>>◌, get, say, or_error, Text, Item, is_running, lit,
  txt,
}

abbrev pub is_one_of : Text → ℕ → Bool
is_one_of [] c = false
is_one_of (d ∷ ds) c = c == d || is_one_of ds c

abbrev pub skip : Text → Text → Text
skip delims [] = []
skip delims (c ∷ s) = if is_one_of delims c then skip delims s else c ∷ s

abbrev pub until : Text → Text → Text
until delims [] = []
until delims (c ∷ s) = if is_one_of delims c then [] else c ∷ until delims s

-- What `strtok` keeps: the text behind the delimiter that ends the token.
abbrev pub behind : Text → Text → Text
behind delims [] = []
behind delims (c ∷ s) = if is_one_of delims c then s else behind delims s

abbrev pub token : Text → Text → Option Text
token delims s = elim (skip delims s) [ [] ↦ none | c ∷ rest ↦ some (until delims (c ∷ rest)) ]

abbrev pub rest_of : Text → Text → Text
rest_of delims s = behind delims (skip delims s)

abbrev pub shown_token : Option Text → List Item → List Item
shown_token none after = []
shown_token (some t) after = txt t ∷ after

-- " " and "-".
abbrev blank : Text
blank = 32 ∷ []

abbrev dash : Text
dash = 45 ∷ []

-- " p".
abbrev blank_p : Text
blank_p = 32 ∷ 112 ∷ []

-- The two addresses, the permissions, the inode and the path; the offset and the device are
-- passed over.
abbrev pub maps_line : Text → List Item
maps_line line =
    let l1 = rest_of dash line in
    let l2 = rest_of blank l1 in
    let l3 = rest_of blank_p l2 in
    let l4 = rest_of blank l3 in
    let l5 = rest_of blank l4 in
    let l6 = rest_of blank l5 in
    shown_token (token dash line) (lit "-" ∷ [])
    ++ shown_token (token blank l1) (lit " " ∷ [])
    ++ shown_token (token blank_p l2) (lit " " ∷ [])
    ++ shown_token (token blank l5) []
    ++ shown_token (token blank l6) []

module _ {k : Kernel} where
  unfoldable pub show_maps : List Text → M k (Unit {0})
  show_maps [] = pure tt
  show_maps (line ∷ lines) = say (maps_line line) >> show_maps lines

  unfoldable pub vmmap : M k (Unit {0})
  vmmap = do
    s ← get
    if not (is_running s.phase) then say (lit "** state must be RUNNING" ∷ []) else (do
      lines ← or_error "fopen" (k.maps s.pid s.world)
      if k.null_line s.world then show_maps lines else (λ _. fault stray_line))
