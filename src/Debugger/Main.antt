-- ===== src/Debugger/Main.antt =====
-- `main` of hw4/hw4.cpp: the arguments of sdb, and where its command lines come from.
pub mod Valid
pub mod Ends
use nctu_unix.Base.{
  ℕ, Bool, true, false, ◌==◌, if◌then◌else◌, List, [], ◌∷◌, ◌++◌, Option, none, some, codes,
  eq_text,
}
use nctu_unix.Debugger.State.{
  Kernel, Sdb, M, Outcome, fault, null_string, exited, pure, ◌>>=◌, ◌>>◌, get, Text, txt,
}
use nctu_unix.Debugger.Load.{load}
use nctu_unix.Debugger.Shell.{flush, script, typed}

-- The lines that `getline` gives of a file; behind the last newline there is one more only if
-- the file goes on.
unfoldable pub lines_from : Text → List ℕ → List Text
lines_from line [] = flush line []
lines_from line (c ∷ file) =
    let next = line ∷ lines_from [] file in
    let more = lines_from (line ++ (c ∷ [])) file in if c == b'\n' then next else more

-- Opening a stream that is open fails, like opening a file that cannot be read; the text of the
-- error is left out.
abbrev pub script_file : (k : Kernel) → Option (List Text) → Text → k.World → Option (List ℕ)
script_file k none path w = k.file (codes "./" ++ path) w
script_file k (some lines) path w = none

abbrev pub is_script : Text → Bool
is_script arg = eq_text arg (codes "-s")

module _ {k : Kernel} where
  abbrev pub or_exit : Text → Option (List ℕ) → M k (List Text)
  or_exit path none s = exited (record s { output = (txt path ∷ []) ∷ s.output })
  or_exit path (some file) s = pure (lines_from [] file) s

  unfoldable pub open_script : Option (List Text) → Text → M k (List Text)
  open_script f path = do s ← get; or_exit path (script_file k f path s.world)

  -- The loop over `argv`; a string is made of NULL where -s is the last.
  unfoldable pub arguments : List Text → Option (List Text) → M k (Option (List Text))
  arguments [] f = pure f
  arguments (arg ∷ []) f = if is_script arg then (λ s. fault null_string) else load arg >> pure f
  arguments (arg ∷ path ∷ argv) f =
      let opened = open_script f path >>= λ lines. arguments argv (some lines) in
      let loaded = load arg >> arguments (path ∷ argv) f in if is_script arg then opened else loaded

  abbrev pub commands : List Text → Option (List Text) → M k (Unit {0})
  commands lines none = typed lines
  commands lines (some file) = script file

  -- `lines` are those that are typed, `argv` is without the program's name. At the end of what is
  -- typed `getline` fails over and over and the loop goes on with empty lines.
  unfoldable pub main : List Text → List Text → M k (Unit {0})
  main argv lines = arguments argv none >>= commands lines
