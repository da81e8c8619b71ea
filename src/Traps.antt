-- ===== src/Traps.antt =====
-- asm/ptrace/no_more_traps/test.cpp: a tracer that puts the bytes of a file where a program has
-- breakpoint instructions.
pub mod Repair
mod Tests
use nctu_unix.Base.{
  ℕ, zero, suc, ◌+◌, ◌-◌, ◌*◌, ◌%◌, ◌^◌, bit_and, bit_or, Bool, ◌&&◌, ◌==◌, ltb, if◌then◌else◌,
  List, [], ◌∷◌, Option, none, some,
}
use nctu_unix.Debugger.State.{Kernel, Regs, continue}
use nctu_unix.Debugger.Control.{wifstopped, before}

-- A digit of base 16, from what `fgetc` gives as an unsigned word.
unfoldable pub to_hex : ℕ → ℕ
to_hex c = if ltb c 58 && ltb 47 c then c - 48 else if ltb c 103 && ltb 96 c then c - 87 else c

-- `fgetc`: the next character, or EOF, which is -1.
abbrev pub next_char : List ℕ → ℕ
next_char [] = 2 ^ 64 - 1
next_char (c ∷ file) = c

abbrev pub behind_char : List ℕ → List ℕ
behind_char [] = []
behind_char (c ∷ file) = file

-- `c1 << 4 | c2`.
unfoldable pub next_byte : List ℕ → ℕ
next_byte file =
    bit_or (to_hex (next_char file) * 16 % 2 ^ 64) (to_hex (next_char (behind_char file)))

-- `(code & 0xffffffffffffff00) | hex`.
abbrev pub repaired : ℕ → ℕ → ℕ
repaired code hex = bit_or (bit_and code 0xffff_ffff_ffff_ff00) hex

-- The first byte of the word, by `memcmp`.
abbrev pub is_trap : ℕ → Bool
is_trap code = code % 256 == 0xcc

module _ (k : Kernel) where
  -- `INT_cont`, what is left of the file, and the traced program.
  pub record Tracer : Type 0 where
    pub int_cont : ℕ
    pub file : List ℕ
    pub world : k.World

module _ {k : Kernel} where
  -- At a breakpoint instruction; `none` is `errquit`.
  unfoldable pub repair : ℕ → Regs → Tracer k → Option (Tracer k)
  repair child regs t =
      elim (k.poke child regs.rip (repaired (k.peek child regs.rip t.world) (next_byte t.file))
        t.world) [
          | none ↦ none
          | some w ↦ elim (k.set_regs child regs w) [
            | none ↦ none
            | some w' ↦ some (record {
              int_cont = t.int_cont + 1;
              file = behind_char (behind_char t.file);
              world = w';
            })
          ]
        ]

  abbrev pub at_stop : ℕ → Regs → Tracer k → Option (Tracer k)
  at_stop child regs t =
      if is_trap (k.peek child regs.rip t.world) then repair child regs t else some t

  unfoldable pub stopped : ℕ → Tracer k → Option (Tracer k)
  stopped child t = elim (k.get_regs child t.world) [
    | none ↦ none
    | some regs ↦ at_stop child (record regs { rip = before regs.rip }) t
  ]

  -- PTRACE_CONT, whose result is not looked at.
  abbrev pub resumed : ℕ → Tracer k → Tracer k
  resumed child t = elim (k.resume continue child t.world) [
    | none ↦ t
    | some w ↦ record t { world = w }
  ]

  abbrev pub or_resumed : ℕ → Option (Tracer k) → Option (Tracer k)
  or_resumed child none = none
  or_resumed child (some t) = some (resumed child t)

  -- One round of the loop, with the status that `waitpid` gave.
  unfoldable pub tracer_round : ℕ → ℕ → Tracer k → Option (Tracer k)
  tracer_round child status t =
      if wifstopped status then or_resumed child (stopped child t) else some t
