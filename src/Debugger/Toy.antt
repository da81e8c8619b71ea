-- ===== src/Debugger/Toy.antt =====
-- A small kernel that the tests of sdb (hw4/hw4.cpp) run on, and an ELF file for it.
use nctu_unix.Base.{
  ℕ, zero, suc, ◌++◌, ◌/◌, ◌%◌, ◌<◌, ◌≡◌, refl, sym, ap, ◌∙◌, true, List, [], ◌∷◌, Option, none,
  some, codes, arith,
}
use nctu_unix.Base.Memory.{Memory, IsBytes, load64, store64, store64-IsBytes}
use nctu_unix.Debugger.State.{Kernel, Sdb, Regs, Elf, running}
use nctu_unix.Debugger.Ptrace.{IsPtrace}
use nctu_unix.Debugger.Breakpoints.Valid.{IsValid}
use nctu_unix.Debugger.Breakpoints.Patch.{Writable}
use nctu_unix.Debugger.Host.{IsHost}

pub record Toy : Type 0 where
  pub memory : Memory
  pub regs : Regs

abbrev pub seen : Toy → Memory
seen w a = w.memory a % 256

abbrev pub repeat : ℕ → ℕ → List ℕ
repeat zero v = []
repeat (suc n) v = v ∷ repeat n v

-- v in n bytes.
abbrev pub word_of : ℕ → ℕ → List ℕ
word_of zero v = []
word_of (suc n) v = v % 256 ∷ word_of n (v / 256)

-- An ELF file: its header, the headers of .text and of the names, and the names.
abbrev pub hello : List ℕ
hello =
    (0x7f ∷ 69 ∷ 76 ∷ 70 ∷ 2 ∷ [])
    ++ repeat 19 0
    ++ word_of 8 0x401000
    ++ repeat 8 0
    ++ word_of 8 64
    ++ repeat 12 0
    ++ word_of 2 2
    ++ word_of 2 1
    ++ word_of 4 0
    ++ repeat 12 0
    ++ word_of 8 0x401000
    ++ word_of 8 0x1000
    ++ word_of 8 0x100
    ++ repeat 24 0
    ++ word_of 4 6
    ++ repeat 12 0
    ++ repeat 8 0
    ++ word_of 8 192
    ++ word_of 8 6
    ++ repeat 24 0
    ++ codes ".text"
    ++ (0 ∷ [])

-- Every call succeeds; each `wait` reports a stop by SIGTRAP.
abbrev pub small : Kernel
small = record {
  World = Toy;
  peek = λ p a w. load64 (seen w) a;
  poke = λ p a v w. some (record w { memory = store64 (seen w) a v });
  get_regs = λ p w. some w.regs;
  set_regs = λ p regs w. some (record w { regs = regs });
  resume = λ mode p w. some w;
  returns = λ p w. true;
  null_line = λ w. true;
  reads_inside = λ code offset addr size. true;
  wait = λ p w. some (0x57f, w);
  set_options = λ p w. some w;
  spawn = λ path w. some (7, w);
  kill = λ p w. w;
  maps = λ p w. some [];
  file = λ path w. some hello;
  disassemble = λ code offset addr size.
      some (record { address = addr; bytes = 0x90 ∷ []; mnemonic = codes "nop"; op_str = [] } ∷ []);
}

pub seen-IsBytes : (w : Toy) → IsBytes (seen w)
seen-IsBytes w a = omega arith

pub mod_small : (x : ℕ) → x < 256 → x % 256 ≡ x
mod_small x h = omega arith

abbrev pub value : Toy → Option Toy → Toy
value w none = w
value w (some w') = w'

unfoldable pub small-IsPtrace : IsPtrace small
small-IsPtrace = record {
  memory = seen;
  memory-IsBytes = seen-IsBytes;
  peek_reads = λ p a w. refl;
  poke_writes = λ p a v w w' e b.
      ap (λ (x : Toy). seen x b) (sym (ap (value w) e))
      ∙ mod_small (store64 (seen w) a v b) (store64-IsBytes (seen w) a v (seen-IsBytes w) b);
  registers_apart = λ p regs w w' e b. ap (λ (x : Toy). seen x b) (sym (ap (value w) e));
  registers_kept = λ p regs w w' e. ap (λ (x : Toy). some x.regs) (sym (ap (value w) e));
}

abbrev pub no_regs : Regs
no_regs = record {
  rax = 1;
  rbx = 2;
  rcx = 0;
  rdx = 0;
  r8 = 0;
  r9 = 0;
  r10 = 0;
  r11 = 0;
  r12 = 0;
  r13 = 0;
  r14 = 0;
  r15 = 0;
  rdi = 0;
  rsi = 0;
  rbp = 0;
  rsp = 0;
  rip = 0x401000;
  eflags = 0;
  others = [];
}

abbrev pub text : Elf
text = record { sh_addr = 0x401000; sh_offset = 0x1000; sh_size = 0x100; ehdr = []; str_shdr = [] }

-- A running program whose every byte is 0x90, with no breakpoint yet.
abbrev pub running_program : Sdb small
running_program = record {
  phase = running;
  file_path = codes "hello";
  pid = 7;
  code = none;
  bp_list = [];
  elf = text;
  world = record { memory = λ a. 0x90; regs = no_regs };
  output = [];
}

pub running_program-IsValid : IsValid running_program
running_program-IsValid = record {
  numbered = tt;
  distinct = tt;
  in_text = tt;
  empty_in = tt;
  pid_set = refl;
}

pub writable : Writable small 7
writable a v w = (record w { memory = store64 (seen w) a v }, refl)

abbrev pub process : Option (ℕ × Toy) → ℕ
process none = 0
process (some x) = x.0

pub small-IsHost : IsHost small
small-IsHost = record { forked = λ path w x e zero. absurd (omega (arith, ap process e, zero)) }
