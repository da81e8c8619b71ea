-- ===== src/Debugger/Load.antt =====
-- `load` of hw4/hw4.cpp: the ELF headers of the program's file.
use nctu_unix.Base.{
  take, drop, ℕ, zero, suc, ◌+◌, ◌*◌, ◌%◌, ◌^◌, Bool, true, false, ◌&&◌, ◌==◌, ltb, not,
  if◌then◌else◌, List, [], ◌∷◌, ◌++◌, Option, none, some, codes, length,
}
use nctu_unix.Debugger.State.{
  Kernel, M, fault, stray_header, ◌>>=◌, ◌>>◌, get, put, say, or_error, Text, Elf, Phase, nonload,
  loaded, running, lit, txt, hex,
}

-- `fread` of `size` bytes at a position: a short file leaves the rest of the buffer as it was.
abbrev pub fread_at : List ℕ → ℕ → ℕ → List ℕ → List ℕ
fread_at file position size buffer =
    let chunk = take size (drop position file) in chunk ++ drop (length chunk) buffer

-- The field of n bytes at an offset of a structure, least significant byte first.
abbrev number : ℕ → List ℕ → ℕ
number zero bytes = 0
number (suc n) [] = 0
number (suc n) (b ∷ bytes) = b + 256 * number n bytes

abbrev pub field : ℕ → ℕ → List ℕ → ℕ
field offset n bytes = number n (drop offset bytes)

-- `Elf64_Ehdr`.
abbrev pub e_class : List ℕ → ℕ
e_class ehdr = field 4 1 ehdr

abbrev pub entry_of : List ℕ → ℕ
entry_of ehdr = field 24 8 ehdr

abbrev pub e_shoff : List ℕ → ℕ
e_shoff ehdr = field 40 8 ehdr

abbrev pub e_shnum : List ℕ → ℕ
e_shnum ehdr = field 60 2 ehdr

abbrev pub e_shstrndx : List ℕ → ℕ
e_shstrndx ehdr = field 62 2 ehdr

-- `Elf64_Shdr`.
abbrev pub sh_name : List ℕ → ℕ
sh_name shdr = field 0 4 shdr

abbrev pub addr_of : List ℕ → ℕ
addr_of shdr = field 16 8 shdr

abbrev pub offset_of : List ℕ → ℕ
offset_of shdr = field 24 8 shdr

abbrev pub size_of : List ℕ → ℕ
size_of shdr = field 32 8 shdr

abbrev pub header_size : ℕ
header_size = 64

-- The first four bytes of an ELF file, 0x7f and "ELF".
abbrev pub is_elf : List ℕ → Bool
is_elf (a ∷ b ∷ c ∷ d ∷ rest) = a == 0x7f && b == 69 && c == 76 && d == 70
is_elf ehdr = false

-- `fseek` to an offset kept in an `int`; a negative one leaves the position.
abbrev pub seek_int : ℕ → ℕ → ℕ
seek_int offset position = if ltb (offset % 2 ^ 32) (2 ^ 31) then offset % 2 ^ 32 else position

-- `fseek` to an offset of type `long`.
abbrev pub seek : ℕ → ℕ → ℕ
seek offset position = if ltb offset (2 ^ 63) then offset else position

-- `strcmp(…, name) == 0`, for a name with its final 0; `none` where it reads past the table.
unfoldable pub same_name : List ℕ → List ℕ → Option Bool
same_name table [] = some true
same_name [] (c ∷ name) = none
same_name (t ∷ table) (c ∷ name) = if t == c then same_name table name else some false

-- The headers of the table from a position on: the first one named .text, if there is one.
-- `none` is a read of bytes that no one set.
unfoldable pub find_text : List ℕ → List ℕ → ℕ → ℕ → Option (Option (List ℕ))
find_text file table zero position = some none
find_text file table (suc n) position =
    let shdr = take header_size (drop position file) in
    let rest = find_text file table n (position + header_size) in
    if ltb (length shdr) header_size
    then none
    else elim (same_name (drop (sh_name shdr) table) (codes ".text" ++ (0 ∷ []))) [
      | none ↦ none
      | some true ↦ some (some shdr)
      | some false ↦ rest
    ]

-- From the ELF header to the header of .text, with what the string header's buffer held.
unfoldable pub string_header : List ℕ → List ℕ → List ℕ → List ℕ
string_header file ehdr old =
    fread_at file
      (seek_int (e_shoff ehdr + e_shstrndx ehdr * header_size) (length (take header_size file)))
      header_size old

-- The position after the string header is read.
abbrev after_header : List ℕ → List ℕ → ℕ
after_header file ehdr =
    let position =
      seek_int (e_shoff ehdr + e_shstrndx ehdr * header_size) (length (take header_size file)) in
    position + length (take header_size (drop position file))

unfoldable pub text_header : List ℕ → List ℕ → List ℕ → Option (Option (List ℕ))
text_header file ehdr str_shdr =
    let position = seek (offset_of str_shdr) (after_header file ehdr) in
    let table = take (size_of str_shdr) (drop position file) in
    find_text file table (e_shnum ehdr) (seek (e_shoff ehdr) (position + length table))

-- Without a section .text the fields keep what they were.
abbrev pub with_text : Option (List ℕ) → Elf → Elf
with_text none elf = elf
with_text (some shdr) elf = record elf {
  sh_addr = addr_of shdr;
  sh_offset = offset_of shdr;
  sh_size = size_of shdr;
}

abbrev pub is_nonload : Phase → Bool
is_nonload nonload = true
is_nonload loaded = false
is_nonload running = false

abbrev pub no_text : Text → Bool
no_text [] = true
no_text (c ∷ cs) = false

module _ {k : Kernel} where
  abbrev pub set_elf : Elf → M k (Unit {0})
  set_elf elf = do s ← get; put (record s { elf = elf })

  unfoldable pub load_elf : Text → List ℕ → M k (Unit {0})
  load_elf arg file = do
    s ← get
    let ehdr = fread_at file 0 header_size s.elf.ehdr
    set_elf (record s.elf { ehdr = ehdr })
    if not (is_elf ehdr)
        then say (lit "** Not ELF file" ∷ [])
        else if not (e_class ehdr == 2)
        then say (lit "** Not 64-bits program" ∷ [])
        else (do
          let str_shdr = string_header file ehdr s.elf.str_shdr
          elim (text_header file ehdr str_shdr) [
            | none ↦ (λ _. fault stray_header)
            | some found ↦ (do
              set_elf (with_text found (record s.elf { ehdr = ehdr; str_shdr = str_shdr }))
              say (
                  lit "** program '"
                  ∷ txt arg
                  ∷ lit "' loaded. entry point 0x"
                  ∷ hex (entry_of ehdr)
                  ∷ [])
              s' ← get
              put (record s' { file_path = arg; phase = loaded }))
          ])

  unfoldable pub load : Text → M k (Unit {0})
  load arg = do
    s ← get
    if not (is_nonload s.phase)
        then say (lit "** state must be NOT LOADED" ∷ [])
        else if no_text arg
        then say (lit "** no program path is given" ∷ [])
        else (do file ← or_error "fopen" (k.file arg s.world); load_elf arg file)
