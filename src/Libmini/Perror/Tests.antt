-- ===== src/Libmini/Perror/Tests.antt =====
-- Runs of `perror` of hw3/libmini.c in a loaded program on a terminal, and its theorems at them.
use Prim.Native.String.{String}
use text.Mathlib.Text.{◌==◌ as str_eq}
use nctu_unix.Base.{ℕ, zero, suc, ◌+◌, ◌*◌, ◌/◌, ◌%◌, ◌-◌, ◌≡◌, refl, arith}
use nctu_unix.Base.{
  Bool, true, ◌==◌, ◌&&◌, not, if◌then◌else◌, List, [], ◌∷◌, ◌++◌, Option, none, some,
}
use nctu_unix.Base.{pos, codes, get_elem?, leb, ==_iff}
use nctu_unix.Base.Memory.{Memory, StringAt}
use nctu_unix.Libmini.Machine.{Kernel, Machine}
use nctu_unix.Libmini.Perror.{errmsg, unknown, colon, newline, perror, wild_read}
use nctu_unix.Libmini.Perror.Output.{IsTerminal, IsLoaded, Prefix, Prints}
use nctu_unix.Libmini.Perror.Report.{perror_reports, perror-wild_read}

-- A loaded program: literal number j in the 64 bytes from 64 * j, and a prefix at 8192.
literals : List String
unfolding errmsg
literals = unknown ∷ colon ∷ newline ∷ errmsg

slot : String → List String → ℕ → ℕ
slot t [] n = 0
slot t (u ∷ us) n = if str_eq u t then n else slot t us (n + 1)

place : String → ℕ
unfolding literals slot
place t = 64 * slot t literals 1

byte_of : List ℕ → ℕ → ℕ
byte_of [] i = 0
byte_of (c ∷ s) zero = c
byte_of (c ∷ s) (suc i) = byte_of s i

literal_byte : Option String → ℕ → ℕ
unfolding byte_of
literal_byte none i = 0
literal_byte (some t) i = byte_of (codes t) i

image : Memory
unfolding literal_byte literals byte_of
image a =
    if leb 8192 a
    then byte_of (codes "sdb") (a - 8192)
    else literal_byte (get_elem? literals (a / 64 - 1)) (a % 64)

stored : ℕ → List ℕ → Bool
stored p [] = image p == 0
stored p (c ∷ s) = (image p == c) && not (c == 0) && stored (p + 1) s

stored_sound : (p : ℕ) (s : List ℕ) → stored p s ≡ true → StringAt image p s
unfolding stored
stored_sound p [] h = (==_iff (image p) 0).0 h
stored_sound p (c ∷ s) h = (ground arith, λ e. ground arith, stored_sound (p + 1) s (ground arith))

all_stored : List String → Bool
all_stored [] = true
all_stored (t ∷ ts) = stored (place t) (codes t) && all_stored ts

all_stored_sound :
    (ts : List String) (i : ℕ) (t : String)
    → all_stored ts ≡ true
    → get_elem? ts i ≡ some t
    → StringAt image (place t) (codes t)
unfolding all_stored
all_stored_sound [] i t h e = absurd (ground arith)
all_stored_sound (u ∷ ts) zero t h e =
    let p : u ≡ t = cc in rw (← p) (stored_sound (place u) (codes u) (ground arith))
all_stored_sound (u ∷ ts) (suc i) t h e = all_stored_sound ts i t (ground arith) e

all_literals : all_stored literals ≡ true
unfolding all_stored stored image place literals
all_literals = refl

-- The terminal takes what it is given.
abbrev terminal : Kernel
terminal h c m = (pos 1, m)

terminal-IsTerminal : IsTerminal terminal
terminal-IsTerminal = record { accepts = λ h fd p n m. refl; keeps = λ h fd p n m. refl }

abbrev failed : ℕ → Machine
failed e = record { memory = image; errno = pos e; calls = [] }

image-IsLoaded : IsLoaded place image
unfolding literals
image-IsLoaded = record {
  unknown_at = all_stored_sound literals 0 unknown all_literals refl;
  colon_at = all_stored_sound literals 1 colon all_literals refl;
  newline_at = all_stored_sound literals 2 newline all_literals refl;
  message_at = λ i t e. all_stored_sound literals (suc (suc (suc i))) t all_literals e;
}

sdb_at : StringAt image 8192 (codes "sdb")
unfolding stored image
sdb_at = stored_sound 8192 (codes "sdb") refl

perror_reports_example :
    Prints
      (failed 2)
      (((codes "sdb" ++ codes colon) ++ codes "No such file or directory") ++ codes newline)
      (pos 0)
      (perror terminal place 50 8192 (failed 2))
unfolding errmsg
perror_reports_example =
    perror_reports terminal place 50 terminal-IsTerminal (omega arith) (failed 2) image-IsLoaded
      8192 (codes "sdb" ++ codes colon) 2 "No such file or directory"
      (Prefix.given (codes "sdb") (omega arith) sdb_at (omega arith) refl) refl refl

perror-wild_read_example : perror terminal place 50 8192 (failed 110) ≡ wild_read
perror-wild_read_example =
    perror-wild_read terminal place 50 terminal-IsTerminal (omega arith) (failed 110) image-IsLoaded
      8192 (codes "sdb") (omega arith) sdb_at (omega arith) refl
