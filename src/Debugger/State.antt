-- ===== src/Debugger/State.antt =====
-- The globals of hw4/hw4.cpp, the kernel and the libraries that it calls, and its output.
use Prim.Native.String.{String}
use nctu_unix.Base.{
  ℕ, Bool, true, false, List, ◌∷◌, [], Option, none, some, ℤ, if◌then◌else◌, ◌≡◌, refl, ◌⊎◌, inl,
  inr, Bool-cases, Option-cases,
}

abbrev pub Text : Type 0
Text = List ℕ

-- `struct user_regs_struct`; `others` stands for the registers that sdb never names.
pub record Regs : Type 0 where
  pub rax : ℕ
  pub rbx : ℕ
  pub rcx : ℕ
  pub rdx : ℕ
  pub r8 : ℕ
  pub r9 : ℕ
  pub r10 : ℕ
  pub r11 : ℕ
  pub r12 : ℕ
  pub r13 : ℕ
  pub r14 : ℕ
  pub r15 : ℕ
  pub rdi : ℕ
  pub rsi : ℕ
  pub rbp : ℕ
  pub rsp : ℕ
  pub rip : ℕ
  pub eflags : ℕ
  pub others : List ℕ

-- An instruction as capstone gives it.
pub record Insn : Type 0 where
  pub address : ℕ
  pub bytes : List ℕ
  pub mnemonic : Text
  pub op_str : Text

-- PTRACE_CONT or PTRACE_SINGLESTEP.
pub data Mode : Type 0 where
  continue single_step : Mode

-- What sdb calls: `none` is an error of the call. `spawn` is the parent's side of the `fork` in
-- `start`, with the child's PTRACE_TRACEME and `execvp`; `returns` says whether `waitpid` comes back at
-- all, and `wait` what it gives then; `maps` gives the lines of /proc/PID/maps, and `null_line` says
-- whether `line` of `vmmap`, which is not initialised, happens to be NULL; `reads_inside` says whether
-- what capstone reads, of the `code_size` bytes that it is offered, lies in the buffer.
pub record Kernel : Type 1 where
  pub World : Type 0
  pub peek : ℕ → ℕ → World → ℕ
  pub poke : ℕ → ℕ → ℕ → World → Option World
  pub get_regs : ℕ → World → Option Regs
  pub set_regs : ℕ → Regs → World → Option World
  pub resume : Mode → ℕ → World → Option World
  pub returns : ℕ → World → Bool
  pub wait : ℕ → World → Option (ℕ × World)
  pub set_options : ℕ → World → Option World
  pub spawn : Text → World → Option (ℕ × World)
  pub kill : ℕ → World → World
  pub file : Text → World → Option (List ℕ)
  pub maps : ℕ → World → Option (List Text)
  pub null_line : World → Bool
  pub disassemble : List ℕ → ℕ → ℕ → ℕ → Option (List Insn)
  pub reads_inside : List ℕ → ℕ → ℕ → ℕ → Bool

-- NONLOAD, LOADED and RUNNING.
pub data Phase : Type 0 where
  nonload loaded running : Phase

abbrev pub is_running : Phase → Bool
is_running nonload = false
is_running loaded = false
is_running running = true

pub record Breakpoint : Type 0 where
  pub id : ℕ
  pub addr : ℕ
  pub orig_code : ℕ

-- The fields of the `.text` section header that are used, and the bytes of the two other headers.
pub record Elf : Type 0 where
  pub sh_addr : ℕ
  pub sh_offset : ℕ
  pub sh_size : ℕ
  pub ehdr : List ℕ
  pub str_shdr : List ℕ

-- What is printed: literal text, a name, a number, bytes as pairs of hexadecimal digits.
pub data Item : Type 0 where
  lit : String → Item
  txt : Text → Item
  dec : ℤ → Item
  hex : ℕ → Item
  bytes : List ℕ → Item

-- `output` holds the lines, the last first; `pid` is 0 where no program is traced.
pub record Sdb (k : Kernel) : Type 0 where
  pub phase : Phase
  pub file_path : Text
  pub pid : ℕ
  pub code : Option (List ℕ)
  pub bp_list : List Breakpoint
  pub elf : Elf
  pub world : k.World
  pub output : List (List Item)

-- What C++ leaves undefined: a file that cannot be read gives a null pointer, the headers of an ELF
-- file lie outside it, a string is made of NULL, `getline` is given a stray pointer, capstone reads
-- behind the buffer, `bp_list` is indexed outside.
pub data Undefined : Type 0 where
  null_code stray_header null_string stray_line over_read wrong_index : Undefined

-- `exited` is a call of `exit`, `blocked` a `waitpid` that never comes back.
pub data Outcome (k : Kernel) (A : Type 0) : Type 0 where
  done : A → Sdb k → Outcome k A
  exited : Sdb k → Outcome k A
  fault : Undefined → Outcome k A
  blocked : Outcome k A

abbrev pub M : Kernel → Type 0 → Type 0
M k A = Sdb k → Outcome k A

abbrev pub pure : {k : Kernel} {A : Type 0} → A → M k A
pure a s = done a s

module _ {k : Kernel} where
  infixl 5 ◌>>=◌ ◌>>◌
  abbrev pub ◌>>=◌ : {A B : Type 0} → M k A → (A → M k B) → M k B
  ◌>>=◌ f g s = elim (f s) [
    | done a s' ↦ g a s'
    | exited s' ↦ exited s'
    | fault why ↦ fault why
    | blocked ↦ blocked
  ]

  abbrev pub ◌>>◌ : {A B : Type 0} → M k A → M k B → M k B
  f >> g = f >>= λ _. g

  abbrev pub get : M k (Sdb k)
  get s = done s s

  abbrev pub put : Sdb k → M k (Unit {0})
  put s' s = done tt s'

  -- `cout << … << endl` or `cerr << …`.
  abbrev pub say : List Item → M k (Unit {0})
  say line s = done tt (record s { output = line ∷ s.output })

  -- `error(func, errno)`: a message and `exit(-1)`.
  abbrev pub error : {A : Type 0} → String → M k A
  error func s = exited (record s { output = (lit func ∷ []) ∷ s.output })

  -- A call whose error ends the program.
  abbrev pub or_error : {A : Type 0} → String → Option A → M k A
  or_error func none = error func
  or_error func (some a) = pure a

  abbrev pub set_world : k.World → M k (Unit {0})
  set_world w s = done tt (record s { world = w })

  -- `waitpid`.
  unfoldable pub await : ℕ → k.World → M k (ℕ × k.World)
  await pid w = if k.returns pid w then or_error "waitpid" (k.wait pid w) else (λ s. blocked)

  abbrev pub set_bp_list : List Breakpoint → M k (Unit {0})
  set_bp_list bps s = done tt (record s { bp_list = bps })

  abbrev pub get_registers : M k Regs
  get_registers = do s ← get; or_error "ptrace(PTRACE_GETREGS)" (k.get_regs s.pid s.world)

  abbrev pub set_registers : Regs → M k (Unit {0})
  set_registers regs = do
    s ← get
    w ← or_error "ptrace(PTRACE_SETREGS)" (k.set_regs s.pid regs s.world)
    set_world w

  pub await-cases :
      (pid : ℕ) (w : k.World)
      → (await pid w ≡ (λ s. blocked))
        ⊎ ((await pid w ≡ error "waitpid") ⊎ ((x : ℕ × k.World) × (await pid w ≡ pure x)))
  unfolding await
  await-cases pid w = elim (Bool-cases (k.returns pid w)) [
    | inr r ↦ inl (rw (await, r) refl)
    | inl r ↦ elim (Option-cases (k.wait pid w)) [
      | inl e ↦ inr (inl (rw (await, r, e) refl))
      | inr (x, e) ↦ inr (inr (x, rw (await, r, e) refl))
    ]
  ]
