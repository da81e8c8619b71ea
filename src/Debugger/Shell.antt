-- ===== src/Debugger/Shell.antt =====
-- `split`, `help`, `quit` and `main` of hw4/hw4.cpp: the command lines of sdb.
pub mod Commands
pub mod Valid
use Prim.Native.String.{String}
use nctu_unix.Base.{
  eq_text, ℕ, zero, suc, ◌+◌, ◌-◌, ◌%◌, ◌^◌, Bool, true, false, ◌&&◌, ◌||◌, ◌==◌, ltb, not,
  if◌then◌else◌, List, [], ◌∷◌, ◌++◌, Option, none, some, codes,
}
use nctu_unix.Base.Numbers.{is_space, drop_spaces, leading, atoi}
use nctu_unix.Debugger.State.{
  Kernel, Sdb, M, Outcome, fault, exited, pure, ◌>>=◌, ◌>>◌, get, say, Text, lit, txt,
}
use nctu_unix.Debugger.Breakpoints.{bp, del, list}
use nctu_unix.Debugger.Inspect.{disasm, dump}
use nctu_unix.Debugger.Control.{cont, si, start, run}
use nctu_unix.Debugger.Registers.{get_reg, set_reg, getregs}
use nctu_unix.Debugger.Load.{load, no_text}
use nctu_unix.Debugger.Vmmap.{vmmap}

-- The word read so far, if there is one, is the next of the table.
abbrev pub flush : Text → List Text → List Text
flush [] words = words
flush (c ∷ cs) words = (c ∷ cs) ∷ words

unfoldable pub split_from : Text → Text → List Text
split_from word [] = flush word []
split_from word (c ∷ line) =
    if is_space c then flush word (split_from [] line) else split_from (word ++ (c ∷ [])) line

abbrev pub split : Text → List Text
split line = split_from [] line

-- `cmd_table[i]`, or "" where the table is shorter.
abbrev pub word : ℕ → List Text → Text
word i [] = []
word zero (w ∷ ws) = w
word (suc i) (w ∷ ws) = word i ws

-- The digits behind "0x" or "0X", where it is there.
abbrev pub hex_digits : Text → Text
hex_digits (z ∷ x ∷ s) = if z == 48 && (x == 120 || x == 88) then s else z ∷ x ∷ s
hex_digits s = s

-- `ULONG_MAX` where the number does not fit.
abbrev pub hex_value : Text → ℕ
hex_value s = let n = leading 16 0 (hex_digits s) in if ltb n (2 ^ 64) then n else 2 ^ 64 - 1

abbrev pub fits : Text → Bool
fits s = ltb (leading 16 0 (hex_digits s)) (2 ^ 64)

abbrev pub signed_hex : Text → ℕ
signed_hex [] = 0
signed_hex (c ∷ s) =
    if c == 45
    then (if fits s then (2 ^ 64 - hex_value s) % 2 ^ 64 else 2 ^ 64 - 1)
    else hex_value (if c == 43 then s else c ∷ s)

-- `strtoul(s, NULL, 16)` and `strtoull`, on 64 bits.
unfoldable pub strtoul : Text → ℕ
strtoul s = signed_hex (drop_spaces s)

abbrev pub either : Text → String → String → Bool
either cmd long short = eq_text cmd (codes long) || eq_text cmd (codes short)

module _ {k : Kernel} where
  abbrev pub help : M k (Unit {0})
  help = do
    say (lit "- break {instruction-address}: add a break point" ∷ [])
    say (lit "- cont: continue execution" ∷ [])
    say (lit "- delete {break-point-id}: remove a break point" ∷ [])
    say (lit "- disasm addr: disassemble instructions in a file or a memory region" ∷ [])
    say (lit "- dump addr: dump memory content" ∷ [])
    say (lit "- exit: terminate the debugger" ∷ [])
    say (lit "- get reg: get a single value from a register" ∷ [])
    say (lit "- getregs: show registers" ∷ [])
    say (lit "- help: show this message" ∷ [])
    say (lit "- list: list break points" ∷ [])
    say (lit "- load {path/to/a/program}: load a program" ∷ [])
    say (lit "- run: run the program" ∷ [])
    say (lit "- vmmap: show memory layout" ∷ [])
    say (lit "- set reg val: get a single value to a register" ∷ [])
    say (lit "- si: step into instruction" ∷ [])
    say (lit "- start: start the program and stop at the first instruction" ∷ [])

  unfoldable pub quit : M k (Unit {0})
  quit s =
      if s.pid == 0
      then exited (record s { code = none })
      else exited (record s { pid = 0; code = none; world = k.kill s.pid s.world })

  -- One command and its two arguments; DISASM_MAX is 10.
  unfoldable pub execute : Text → Text → Text → M k (Unit {0})
  execute cmd arg1 arg2 =
      if either cmd "break" "b"
      then (if no_text arg1 then say (lit "** no address is given" ∷ []) else bp (strtoul arg1))
      else if either cmd "cont" "c"
      then cont
      else if eq_text cmd (codes "delete")
      then (if no_text arg1
          then say (lit "** no break-point-id is given" ∷ [])
          else del (atoi arg1))
      else if either cmd "disasm" "d"
      then disasm (strtoul arg1) 10
      else if either cmd "dump" "x"
      then dump (strtoul arg1)
      else if either cmd "exit" "q"
      then quit
      else if either cmd "get" "g"
      then get_reg arg1
      else if eq_text cmd (codes "getregs")
      then getregs
      else if either cmd "help" "h"
      then help
      else if either cmd "list" "l"
      then list
      else if eq_text cmd (codes "load")
      then load arg1
      else if either cmd "run" "r"
      then run
      else if either cmd "vmmap" "m"
      then vmmap
      else if either cmd "set" "s"
      then (if no_text arg1 || no_text arg2
          then say (lit "** Not enough input arguments" ∷ [])
          else set_reg arg1 (strtoul arg2))
      else if eq_text cmd (codes "si")
      then si
      else if eq_text cmd (codes "start")
      then start
      else pure tt

  abbrev pub command : Text → M k (Unit {0})
  command line = execute (word 0 (split line)) (word 1 (split line)) (word 2 (split line))

  -- The lines of a script; `quit` at its end.
  unfoldable pub script : List Text → M k (Unit {0})
  script [] = quit
  script (line ∷ lines) = command line >> script lines

  -- Lines that are typed, each behind a prompt.
  unfoldable pub typed : List Text → M k (Unit {0})
  typed [] = pure tt
  typed (line ∷ lines) = say (lit "sdb> " ∷ []) >> (command line >> typed lines)
