-- ===== src/Debugger/Inspect.antt =====
-- `disasm`, `getcode`, `dump` and `print8ascii` of hw4/hw4.cpp: what sdb shows of the program.
pub mod Dump
use nctu_unix.Base.{
  ℕ, zero, suc, ◌+◌, ◌-◌, ◌/◌, ◌%◌, ◌^◌, ◌==◌, not, if◌then◌else◌, List, [], ◌∷◌, map, none, some,
}
use nctu_unix.Base.Numbers.{is_print}
use nctu_unix.Debugger.State.{
  Kernel, M, fault, null_code, over_read, done, pure, ◌>>=◌, ◌>>◌, get, say, or_error, Elf, Insn,
  Text, is_running, lit, txt, hex, bytes,
}
use nctu_unix.Debugger.Breakpoints.{intext}

-- The n bytes of a word, the lowest first.
abbrev pub bytes_of : ℕ → ℕ → List ℕ
bytes_of zero word = []
bytes_of (suc n) word = word % 256 ∷ bytes_of n (word / 256)

-- A dot, 46, for what is not printable.
abbrev pub ascii : ℕ → ℕ
ascii c = if is_print c then c else 46

abbrev pub print8ascii : ℕ → Text
print8ascii code = map ascii (bytes_of 8 code)

module _ {k : Kernel} where
  -- `code` is read from the file once; a file that cannot be read leaves a null pointer.
  unfoldable pub getcode : M k (List ℕ)
  getcode s = elim s.code [
    | some code ↦ done code s
    | none ↦ elim (k.file s.file_path s.world) [
      | none ↦ fault null_code
      | some code ↦ done code (record s { code = some code })
    ]
  ]

  unfoldable pub show_insns : Elf → List Insn → M k (Unit {0})
  show_insns elf [] = pure tt
  show_insns elf (insn ∷ insns) =
      let rest = show_insns elf insns in
      if not (intext elf insn.address)
      then say (lit "** the address is out of the range of the text segment" ∷ [])
      else say (
          hex insn.address
          ∷ lit ":  "
          ∷ bytes insn.bytes
          ∷ txt insn.mnemonic
          ∷ txt insn.op_str
          ∷ [])
        >> rest

  unfoldable pub show_count : Elf → List Insn → M k (Unit {0})
  show_count elf [] = say (lit "** can not disassemble code" ∷ [])
  show_count elf (insn ∷ insns) = show_insns elf (insn ∷ insns)

  unfoldable pub disasm : ℕ → ℕ → M k (Unit {0})
  disasm addr size = do
    s ← get
    if addr == 0
        then say (lit "** no addr is given" ∷ [])
        else if not (is_running s.phase)
        then say (lit "** state must be RUNNING" ∷ [])
        else if not (intext s.elf addr)
        then say (lit "** the address is out of the range of the text segment" ∷ [])
        else (do
          code ← getcode
          insns ←
              or_error "cs_open"
                (k.disassemble code (s.elf.sh_offset + (addr - s.elf.sh_addr)) addr size)
          if k.reads_inside code (s.elf.sh_offset + (addr - s.elf.sh_addr)) addr size
              then show_count s.elf insns
              else (λ _. fault over_read))

  -- The rows of 16 bytes that are left.
  unfoldable pub dump_rows : ℕ → ℕ → M k (Unit {0})
  dump_rows zero addr = pure tt
  dump_rows (suc n) addr = do
    s ← get
    let code1 = k.peek s.pid addr s.world
    let code2 = k.peek s.pid ((addr + 8) % 2 ^ 64) s.world
    say (
        hex addr
        ∷ lit ": "
        ∷ bytes (bytes_of 8 code1)
        ∷ bytes (bytes_of 8 code2)
        ∷ lit "|"
        ∷ txt (print8ascii code1)
        ∷ txt (print8ascii code2)
        ∷ lit "|"
        ∷ [])
    dump_rows n ((addr + 16) % 2 ^ 64)

  -- DUMP_MAX is 5.
  unfoldable pub dump : ℕ → M k (Unit {0})
  dump addr = do
    s ← get
    if addr == 0
        then say (lit "** no addr is given" ∷ [])
        else if not (is_running s.phase)
        then say (lit "** state must be RUNNING" ∷ [])
        else if not (intext s.elf addr)
        then say (lit "** the address is out of the range of the text segment" ∷ [])
        else dump_rows 5 addr
