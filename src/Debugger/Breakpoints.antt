-- ===== src/Debugger/Breakpoints.antt =====
-- `intext`, `bp`, `del` and `list` of hw4/hw4.cpp: the breakpoints.
pub mod Entries
pub mod Valid
pub mod Patch
use Prim.Native.String.{String}
use nctu_unix.Base.{
  ℕ, zero, suc, ◌+◌, ◌%◌, ◌^◌, bit_and, bit_or, Bool, true, false, not, ◌&&◌, ◌||◌, ◌==◌, leb, ltb,
  if◌then◌else◌, List, [], ◌∷◌, ◌++◌, Option, none, some, ℤ, pos, negsuc, eq_ℤ, length, get_elem?,
}
use nctu_unix.Debugger.State.{
  Kernel, Sdb, M, Outcome, fault, wrong_index, pure, ◌>>=◌, ◌>>◌, get, say, or_error, set_world,
  set_bp_list, Breakpoint, Elf, Phase, nonload, loaded, running, is_running, lit, dec, hex,
}

-- `sh_addr + sh_size` is an unsigned sum of 64 bits.
unfoldable pub intext : Elf → ℕ → Bool
intext elf addr = leb elf.sh_addr addr && ltb addr ((elf.sh_addr + elf.sh_size) % 2 ^ 64)

-- The word with the breakpoint instruction in its lowest byte.
abbrev pub with_int3 : ℕ → ℕ
with_int3 code = bit_or (bit_and code 0xffff_ffff_ffff_ff00) 0xcc

abbrev pub is_int3 : ℕ → Bool
is_int3 code = bit_and code 0xff == 0xcc

unfoldable pub has_addr : List Breakpoint → ℕ → Bool
has_addr [] addr = false
has_addr (b ∷ bs) addr = b.addr == addr || has_addr bs addr

-- The first index at which the id is the one given.
unfoldable pub find_id : List Breakpoint → ℤ → Option ℕ
find_id [] id = none
find_id (b ∷ bs) id =
    let rest = find_id bs id in
    if eq_ℤ (pos b.id) id then some 0 else elim rest [ none ↦ none | some i ↦ some (suc i) ]

unfoldable pub erase : List Breakpoint → ℕ → List Breakpoint
erase [] i = []
erase (b ∷ bs) zero = bs
erase (b ∷ bs) (suc i) = b ∷ erase bs i

-- From index i on the ids are n, n + 1, ….
unfoldable pub renumber : List Breakpoint → ℕ → ℕ → List Breakpoint
renumber [] i n = []
renumber (b ∷ bs) zero n = record b { id = n } ∷ renumber bs 0 (suc n)
renumber (b ∷ bs) (suc i) n = b ∷ renumber bs i n

module _ {k : Kernel} where
  -- PTRACE_POKETEXT, whose failure ends the program.
  unfoldable pub poke_text : String → ℕ → ℕ → M k (Unit {0})
  poke_text func addr word = do
    s ← get
    w ← or_error func (k.poke s.pid addr word s.world)
    set_world w

  -- `b.id = bp_list.size()`.
  unfoldable pub remember : ℕ → ℕ → M k (Unit {0})
  remember addr code = do
    s ← get
    if has_addr s.bp_list addr
        then pure tt
        else set_bp_list
            (s.bp_list ++ (record { id = length s.bp_list; addr = addr; orig_code = code } ∷ []))

  unfoldable pub bp : ℕ → M k (Unit {0})
  bp addr = do
    s ← get
    if not (is_running s.phase)
        then say (lit "** state must be RUNNING" ∷ [])
        else if not (intext s.elf addr)
        then say (lit "** the address is out of the range of the text segment" ∷ [])
        else if is_int3 (k.peek s.pid addr s.world)
        then pure tt
        else (do
          poke_text "ptrace(POKETEXT)" addr (with_int3 (k.peek s.pid addr s.world))
          remember addr (k.peek s.pid addr s.world))

  -- The breakpoint with this id stands at index i; the code reads and erases index `id`.
  unfoldable pub del_found : ℕ → ℕ → Breakpoint → M k (Unit {0})
  del_found i id b = do
    poke_text "ptrace(PTRACE_POKETEXT)" b.addr b.orig_code
    s ← get
    set_bp_list (renumber (erase s.bp_list id) i id)
    say (lit "** breakpoint " ∷ dec (pos id) ∷ lit " deleted." ∷ [])

  unfoldable pub del : ℤ → M k (Unit {0})
  del id = do
    s ← get
    if not (is_running s.phase)
        then say (lit "** state must be RUNNING" ∷ [])
        else elim (find_id s.bp_list id) [
          | none ↦ say (lit "** breakpoint " ∷ dec id ∷ lit " does not exist" ∷ [])
          | some i ↦ elim id [
            | pos n ↦ elim (get_elem? s.bp_list n) [
              | none ↦ (λ _. fault wrong_index)
              | some b ↦ del_found i n b
            ]
            | negsuc n ↦ (λ _. fault wrong_index)
          ]
        ]

  unfoldable pub list_from : List Breakpoint → M k (Unit {0})
  list_from [] = pure tt
  list_from (b ∷ bs) = say (lit "  " ∷ dec (pos b.id) ∷ lit ": " ∷ hex b.addr ∷ []) >> list_from bs

  unfoldable pub list : M k (Unit {0})
  list = do s ← get; list_from s.bp_list
