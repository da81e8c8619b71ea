-- ===== src/Debugger/Registers.antt =====
-- `get`, `set` and `getregs` of hw4/hw4.cpp: the registers of the program.
use nctu_unix.Base.{
  eq_text, ℕ, Bool, true, false, not, if◌then◌else◌, [], ◌∷◌, Option, none, some, pos, codes,
}
use nctu_unix.Debugger.State.{
  Kernel, Sdb, M, done, pure, ◌>>=◌, ◌>>◌, say, Regs, Text, Item, is_running, get_registers,
  set_registers, lit, txt, dec, hex,
}
use nctu_unix.Debugger.State

-- The registers that the two ladders of comparisons name.
pub data Register : Type 0 where
  rax rbx rcx rdx r8 r9 r10 r11 r12 r13 r14 r15 rdi rsi rbp rsp rip flags : Register

unfoldable pub register : Text → Option Register
register name =
    if eq_text name (codes "rax")
    then some rax
    else if eq_text name (codes "rbx")
    then some rbx
    else if eq_text name (codes "rcx")
    then some rcx
    else if eq_text name (codes "rdx")
    then some rdx
    else if eq_text name (codes "r8")
    then some r8
    else if eq_text name (codes "r9")
    then some r9
    else if eq_text name (codes "r10")
    then some r10
    else if eq_text name (codes "r11")
    then some r11
    else if eq_text name (codes "r12")
    then some r12
    else if eq_text name (codes "r13")
    then some r13
    else if eq_text name (codes "r14")
    then some r14
    else if eq_text name (codes "r15")
    then some r15
    else if eq_text name (codes "rdi")
    then some rdi
    else if eq_text name (codes "rsi")
    then some rsi
    else if eq_text name (codes "rbp")
    then some rbp
    else if eq_text name (codes "rsp")
    then some rsp
    else if eq_text name (codes "rip")
    then some rip
    else if eq_text name (codes "flags")
    then some flags
    else none

abbrev pub read_reg : Register → Regs → ℕ
read_reg rax regs = regs.rax
read_reg rbx regs = regs.rbx
read_reg rcx regs = regs.rcx
read_reg rdx regs = regs.rdx
read_reg r8 regs = regs.r8
read_reg r9 regs = regs.r9
read_reg r10 regs = regs.r10
read_reg r11 regs = regs.r11
read_reg r12 regs = regs.r12
read_reg r13 regs = regs.r13
read_reg r14 regs = regs.r14
read_reg r15 regs = regs.r15
read_reg rdi regs = regs.rdi
read_reg rsi regs = regs.rsi
read_reg rbp regs = regs.rbp
read_reg rsp regs = regs.rsp
read_reg rip regs = regs.rip
read_reg flags regs = regs.eflags

abbrev pub write_reg : Register → ℕ → Regs → Regs
write_reg rax val regs = record regs { rax = val }
write_reg rbx val regs = record regs { rbx = val }
write_reg rcx val regs = record regs { rcx = val }
write_reg rdx val regs = record regs { rdx = val }
write_reg r8 val regs = record regs { r8 = val }
write_reg r9 val regs = record regs { r9 = val }
write_reg r10 val regs = record regs { r10 = val }
write_reg r11 val regs = record regs { r11 = val }
write_reg r12 val regs = record regs { r12 = val }
write_reg r13 val regs = record regs { r13 = val }
write_reg r14 val regs = record regs { r14 = val }
write_reg r15 val regs = record regs { r15 = val }
write_reg rdi val regs = record regs { rdi = val }
write_reg rsi val regs = record regs { rsi = val }
write_reg rbp val regs = record regs { rbp = val }
write_reg rsp val regs = record regs { rsp = val }
write_reg rip val regs = record regs { rip = val }
write_reg flags val regs = record regs { eflags = val }

abbrev pub is_empty : Text → Bool
is_empty [] = true
is_empty (c ∷ cs) = false

-- An unknown name leaves the registers as they are.
abbrev pub write_named : Option Register → ℕ → Regs → Regs
write_named none val regs = regs
write_named (some r) val regs = write_reg r val regs

module _ {k : Kernel} where
  unfoldable pub show_named : Text → Option Register → Regs → M k (Unit {0})
  show_named name none regs = pure tt
  show_named name (some r) regs = say (
      txt name
      ∷ lit " = "
      ∷ dec (pos (read_reg r regs))
      ∷ lit " (0x"
      ∷ hex (read_reg r regs)
      ∷ lit ")"
      ∷ [])

  -- `get reg`.
  unfoldable pub get_reg : Text → M k (Unit {0})
  get_reg name = do
    s ← State.get
    if is_empty name
        then say (lit "** no register is given" ∷ [])
        else if not (is_running s.phase)
        then say (lit "** state must be RUNNING" ∷ [])
        else (do regs ← get_registers; show_named name (register name) regs)

  -- `set reg val`.
  unfoldable pub set_reg : Text → ℕ → M k (Unit {0})
  set_reg name val = do
    s ← State.get
    if not (is_running s.phase)
        then say (lit "** state must be RUNNING" ∷ [])
        else (do regs ← get_registers; set_registers (write_named (register name) val regs))

  unfoldable pub getregs : M k (Unit {0})
  getregs = do
    s ← State.get
    if not (is_running s.phase) then say (lit "** state must be RUNNING" ∷ []) else (do
      regs ← get_registers
      say (
          lit "RAX "
          ∷ hex regs.rax
          ∷ lit "RBX "
          ∷ hex regs.rbx
          ∷ lit "RCX "
          ∷ hex regs.rcx
          ∷ lit "RDX "
          ∷ hex regs.rdx
          ∷ [])
      say (
          lit "R8 "
          ∷ hex regs.r8
          ∷ lit "R9 "
          ∷ hex regs.r9
          ∷ lit "R10 "
          ∷ hex regs.r10
          ∷ lit "R11 "
          ∷ hex regs.r11
          ∷ [])
      say (
          lit "R12 "
          ∷ hex regs.r12
          ∷ lit "R13 "
          ∷ hex regs.r13
          ∷ lit "R14 "
          ∷ hex regs.r14
          ∷ lit "R15 "
          ∷ hex regs.r15
          ∷ [])
      say (
          lit "RDI "
          ∷ hex regs.rdi
          ∷ lit "RSI "
          ∷ hex regs.rsi
          ∷ lit "RBP "
          ∷ hex regs.rbp
          ∷ lit "RSP "
          ∷ hex regs.rsp
          ∷ [])
      say (lit "RIP " ∷ hex regs.rip ∷ lit "FLAGS " ∷ hex regs.eflags ∷ []))
