-- ===== src/Lsof/Dirname.antt =====
-- `dirname` of <libgen.h>, which hw1/hw1.c calls on its buffers.
use mathlib.Core.List.{reverse}
use nctu_unix.Base.{ℕ, Bool, true, false, ◌==◌, if◌then◌else◌, List, [], ◌∷◌, length}
use nctu_unix.Lsof.Options.{Text}
use nctu_unix.Lsof.Process.{c_string, put_zero}

-- '/' is 47, '.' is 46.
abbrev pub drop_slashes : Text → Text
drop_slashes [] = []
drop_slashes (c ∷ cs) = if c == 47 then drop_slashes cs else c ∷ cs

abbrev pub drop_name : Text → Text
drop_name [] = []
drop_name (c ∷ cs) = if c == 47 then c ∷ cs else drop_name cs

abbrev is_rooted : Text → Bool
is_rooted [] = false
is_rooted (c ∷ cs) = c == 47

-- The part before the last name, from the end backwards, without its last slashes.
abbrev pub parent_back : Text → Text
parent_back path = drop_slashes (drop_name (drop_slashes (reverse path)))

abbrev pub or_root : Text → Text
or_root [] = 47 ∷ []
or_root (c ∷ cs) = reverse (c ∷ cs)

abbrev pub has_parent : Text → Bool
has_parent path = elim (drop_name (drop_slashes (reverse path))) [
  | [] ↦ is_rooted path
  | c ∷ cs ↦ true
]

unfoldable pub dirname : Text → Text
dirname path = if has_parent path then or_root (parent_back path) else 46 ∷ []

-- Where the path has a slash the result is cut off in its place.
unfoldable pub cut_dirname : List ℕ → List ℕ
cut_dirname buff =
    if has_parent (c_string buff) then put_zero (length (dirname (c_string buff))) buff else buff
