-- ===== src/Libmini/Perror.antt =====
-- `perror` of hw3/libmini.c, with its table of messages.
pub mod Output
pub mod Report
mod Tests
use Prim.Native.String.{String}
use nctu_unix.Base.{ℕ, ◌||◌, ◌==◌, if◌then◌else◌, List, [], ◌∷◌, Option, none, some, get_elem?}
use nctu_unix.Base.{ℤ, pos, negsuc, ltb_ℤ, codes}
use nctu_unix.Libmini.Machine.{Kernel, Machine}
use nctu_unix.Libmini.Strings.{strlen}
use nctu_unix.Libmini.Wrappers.{write}

abbrev pub perrmsg_min : ℤ
perrmsg_min = pos 0

abbrev pub perrmsg_max : ℤ
perrmsg_max = pos 34

unfoldable pub errmsg : List String
errmsg =
    "Success" ∷ "Operation not permitted" ∷ "No such file or directory" ∷ "No such process"
    ∷ "Interrupted system call" ∷ "I/O error" ∷ "No such device or address"
    ∷ "Argument list too long" ∷ "Exec format error" ∷ "Bad file number" ∷ "No child processes"
    ∷ "Try again" ∷ "Out of memory" ∷ "Permission denied" ∷ "Bad address" ∷ "Block device required"
    ∷ "Device or resource busy" ∷ "File exists" ∷ "Cross-device link" ∷ "No such device"
    ∷ "Not a directory" ∷ "Is a directory" ∷ "Invalid argument" ∷ "File table overflow"
    ∷ "Too many open files" ∷ "Not a typewriter" ∷ "Text file busy" ∷ "File too large"
    ∷ "No space left on device" ∷ "Illegal seek" ∷ "Read-only file system" ∷ "Too many links"
    ∷ "Broken pipe" ∷ "Math argument out of domain of func" ∷ "Math result not representable" ∷ []

abbrev pub unknown : String
unknown = "Unknown"

abbrev pub colon : String
colon = ": "

abbrev pub newline : String
newline = "\n"

-- `wild_read` is a read outside the array `errmsg`, which C leaves undefined.
pub data Outcome : Type 0 where
  done : Machine → Outcome
  wild_read out_of_fuel : Outcome

abbrev pub Action : Type 0
Action = Machine → Outcome

infixl 5 ◌>>◌
abbrev pub ◌>>◌ : Action → Action → Action
◌>>◌ f g m = elim (f m) [ done m' ↦ g m' | wild_read ↦ wild_read | out_of_fuel ↦ out_of_fuel ]

-- `errmsg[i]`.
pub message : ℤ → Option String
message (pos n) = get_elem? errmsg n
message (negsuc n) = none

-- `place` says where the program's string literals stand in memory.
module _ (k : Kernel) (place : String → ℕ) (fuel : ℕ) where
  -- `write(2, text, len)`, its result ignored.
  pub put : ℕ → ℤ → Action
  put text len m = done (write k (pos 2) text len m).1

  -- `write(2, text, strlen(text))`.
  pub put_string : ℕ → Action
  unfolding put
  put_string text m = elim (strlen fuel m.memory text) [
    | none ↦ out_of_fuel
    | some n ↦ put text (pos n) m
  ]

  pub put_prefix : ℕ → Action
  unfolding put_string
  put_prefix prefix = if prefix == 0 then done else (put_string prefix >> put (place colon) (pos 2))

  -- The test is on `errno` as the writes above have left it; the index is the value saved before.
  pub put_message : ℤ → Action
  unfolding message put_string
  put_message backup m =
      if ltb_ℤ m.errno perrmsg_min || ltb_ℤ perrmsg_max m.errno
      then put_string (place unknown) m
      else elim (message backup) [ none ↦ wild_read | some text ↦ put_string (place text) m ]

  pub perror : ℕ → Action
  perror prefix m =
      let backup = m.errno in
      (put_prefix prefix >> put_message backup >> put (place newline) (pos 1)) m
