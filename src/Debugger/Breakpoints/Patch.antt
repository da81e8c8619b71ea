-- ===== src/Debugger/Breakpoints/Patch.antt =====
-- What `bp` and `del` of hw4/hw4.cpp do to the bytes of the program.
use mathlib.Core.Path.{subst}
use nctu_unix.Base.{
  ℕ, suc, ◌+◌, ◌*◌, ◌/◌, ◌%◌, ◌^◌, ◌<◌, ◌≡◌, ◌≢◌, ◌∙◌, refl, ap, true, false, ◌==◌, ==_false,
  if◌then◌else◌, List, [], ◌∷◌, ◌++◌, some, pos, length, get_elem?, arith, inl, inr, Bool-cases,
}
use nctu_unix.Base.Memory.{update, update_ne, load64, load64-lt}
use nctu_unix.Base.Masks.{and_byte, and_high, or_int3}
use nctu_unix.Debugger.State.{
  Kernel, Sdb, done, ◌>>=◌, ◌>>◌, Breakpoint, is_running, Item, lit, dec,
}
use nctu_unix.Debugger.Ptrace.{IsPtrace, store64_byte, load64_lowest, store64_again}
use nctu_unix.Debugger.Breakpoints.{
  bp, del, del_found, poke_text, remember, intext, has_addr, with_int3, is_int3, find_id, erase,
  renumber,
}
use nctu_unix.Debugger.Breakpoints.Entries.{Numbered}
use nctu_unix.Debugger.Breakpoints.Valid.{IsValid}

-- The two masks put 0xcc in place of the lowest byte.
with_int3_value : (code : ℕ) → code < 2 ^ 64 → with_int3 code ≡ code / 256 * 256 + 0xcc
with_int3_value code h = rw (and_high code h) (or_int3 (code / 256))

is_int3_value : (code : ℕ) → is_int3 code ≡ (code % 256 == 0xcc)
is_int3_value code = rw (and_byte code) refl

abbrev entry : ℕ → ℕ → ℕ → Breakpoint
entry id addr code = record { id = id; addr = addr; orig_code = code }

-- The list after `break`: as it was where the address is in it.
abbrev pub with_breakpoint : List Breakpoint → ℕ → ℕ → List Breakpoint
with_breakpoint bps addr code =
    if has_addr bps addr then bps else bps ++ (entry (length bps) addr code ∷ [])

other : (id n l : ℕ) → id ≡ n → (id == suc n + l) ≡ false
other id n l e = ==_false id (suc n + l) (λ same. omega arith)

add_suc : (n i : ℕ) → n + suc i ≡ suc n + i
add_suc n i = omega arith

zero_add : (n : ℕ) → 0 + n ≡ n
zero_add n = omega arith

find_id-last :
    (bs : List Breakpoint) (n addr code : ℕ)
    → Numbered bs n
    → find_id (bs ++ (entry (n + length bs) addr code ∷ [])) (pos (n + length bs))
      ≡ some (length bs)
unfolding find_id
find_id-last [] n addr code h = ground arith
find_id-last (b ∷ bs) n addr code h =
    rw (add_suc n (length bs), find_id-last bs (suc n) addr code h.1, other b.id n (length bs) h.0)
      refl

find_id-end :
    (bs : List Breakpoint) (addr code : ℕ)
    → Numbered bs 0
    → find_id (bs ++ (entry (length bs) addr code ∷ [])) (pos (length bs)) ≡ some (length bs)
find_id-end bs addr code h =
    subst (λ (n : ℕ). find_id (bs ++ (entry n addr code ∷ [])) (pos n) ≡ some (length bs))
      (zero_add (length bs)) (find_id-last bs 0 addr code h)

get_elem?-last :
    (bs : List Breakpoint) (b : Breakpoint) → get_elem? (bs ++ (b ∷ [])) (length bs) ≡ some b
get_elem?-last [] b = refl
get_elem?-last (x ∷ bs) b = get_elem?-last bs b

renumber_past : (bs : List Breakpoint) (n : ℕ) → renumber bs (length bs) n ≡ bs
unfolding renumber
renumber_past [] n = refl
renumber_past (b ∷ bs) n = rw (renumber_past bs n)

erase-last : (bs : List Breakpoint) (b : Breakpoint) → erase (bs ++ (b ∷ [])) (length bs) ≡ bs
unfolding erase
erase-last [] b = refl
erase-last (x ∷ bs) b = rw (erase-last bs b)

-- Every word can be written.
abbrev pub Writable : Kernel → ℕ → Type 0
Writable k pid = (a v : ℕ) (w : k.World) → (w' : k.World) × (k.poke pid a v w ≡ some w')

module _ {k : Kernel} (ptrace : IsPtrace k) where
  peeked :
      (s : Sdb k) (addr : ℕ)
      → is_int3 (k.peek s.pid addr s.world) ≡ (ptrace.memory s.world addr == 0xcc)
  peeked s addr = rw (ptrace.peek_reads s.pid addr s.world) (
      is_int3_value (load64 (ptrace.memory s.world) addr)
      ∙ ap (λ (v : ℕ). v == 0xcc)
          (load64_lowest (ptrace.memory s.world) addr (ptrace.memory-IsBytes s.world)))

  patched :
      (s : Sdb k) (addr : ℕ) (w : k.World)
      → k.poke s.pid addr (with_int3 (k.peek s.pid addr s.world)) s.world ≡ some w
      → (b : ℕ) → ptrace.memory w b ≡ update (ptrace.memory s.world) addr 0xcc b
  patched s addr w h b =
      ptrace.poke_writes s.pid addr _ s.world w h b
      ∙ rw
          (
            ptrace.peek_reads s.pid addr s.world,
            with_int3_value (load64 (ptrace.memory s.world) addr)
                (load64-lt (ptrace.memory s.world) addr (ptrace.memory-IsBytes s.world)),
          )
          (store64_byte (ptrace.memory s.world) addr 0xcc (ptrace.memory-IsBytes s.world)
            (omega arith) b)

  remember_lem :
      (addr code : ℕ) (s : Sdb k)
      → remember addr code s ≡ done tt (record s { bp_list = with_breakpoint s.bp_list addr code })
  unfolding remember
  remember_lem addr code s = elim (Bool-cases (has_addr s.bp_list addr)) [
    | inl e ↦ rw e refl
    | inr e ↦ rw e refl
  ]

  -- `break` at an address of the text of a running program whose byte is not yet 0xcc makes
  -- that byte 0xcc, changes no other, and puts the address, with the word that was there, at the
  -- end of the list unless the list has the address.
  pub bp_arms :
      (addr : ℕ) (s : Sdb k)
      → Writable k s.pid
      → is_running s.phase ≡ true
      → intext s.elf addr ≡ true
      → ptrace.memory s.world addr ≢ 0xcc
      → (w : k.World) × (bp addr s
          ≡ done tt (record s {
            world = w;
            bp_list = with_breakpoint s.bp_list addr (load64 (ptrace.memory s.world) addr);
          }))
        × ((b : ℕ) → ptrace.memory w b ≡ update (ptrace.memory s.world) addr 0xcc b)
  unfolding bp poke_text
  bp_arms addr s writable r t fresh =
      let (w, h) = writable addr (with_int3 (k.peek s.pid addr s.world)) s.world in
      (
        w,
        rw
            (
              r,
              t,
              peeked s addr ∙ ==_false (ptrace.memory s.world addr) 0xcc fresh,
              ◌>>◌,
              ◌>>=◌,
              h,
              remember_lem addr (k.peek s.pid addr s.world) (record s { world = w }),
              ptrace.peek_reads s.pid addr s.world,
            )
            refl,
        patched s addr w h,
      )

  abbrev deleted : ℕ → List Item
  deleted id = lit "** breakpoint " ∷ dec (pos id) ∷ lit " deleted." ∷ []

  del-last :
      (bs : List Breakpoint) (addr code : ℕ) (s : Sdb k) (w : k.World)
      → Numbered bs 0
      → is_running s.phase ≡ true
      → k.poke s.pid addr code s.world ≡ some w
      → del (pos (length bs)) (record s { bp_list = bs ++ (entry (length bs) addr code ∷ []) })
        ≡ done tt (record s { world = w; bp_list = bs; output = deleted (length bs) ∷ s.output })
  unfolding del del_found poke_text
  del-last bs addr code s w n r h =
      rw
        (
          r,
          find_id-end bs addr code n,
          get_elem?-last bs (entry (length bs) addr code),
          ◌>>◌,
          ◌>>=◌,
          h,
          erase-last bs (entry (length bs) addr code),
          renumber_past bs (length bs),
        )
        refl

  -- `break` at such an address which the list does not have, and `delete` of the id that it got,
  -- leave every byte of the program and the list of breakpoints as they were, and one line of
  -- output.
  pub bp-del :
      (addr : ℕ) (s : Sdb k)
      → Writable k s.pid
      → IsValid s
      → is_running s.phase ≡ true
      → intext s.elf addr ≡ true
      → ptrace.memory s.world addr ≢ 0xcc
      → has_addr s.bp_list addr ≡ false
      → (w : k.World) × ((bp addr >> del (pos (length s.bp_list))) s
          ≡ done tt (record s { world = w; output = deleted (length s.bp_list) ∷ s.output }))
        × ((b : ℕ) → ptrace.memory w b ≡ ptrace.memory s.world b)
  bp-del addr s writable v r t fresh new =
      let (w, e, m) = bp_arms addr s writable r t fresh in
      let (w', h) = writable addr (load64 (ptrace.memory s.world) addr) w in
      (
        w',
        rw (◌>>◌, ◌>>=◌, e, new)
            (del-last s.bp_list addr (load64 (ptrace.memory s.world) addr) (record s { world = w })
              w' v.numbered r h),
        λ b.
            ptrace.poke_writes s.pid addr (load64 (ptrace.memory s.world) addr) w w' h b
            ∙ store64_again (ptrace.memory s.world) (ptrace.memory w) addr
                (ptrace.memory-IsBytes s.world)
                (λ c q. m c ∙ update_ne (ptrace.memory s.world) addr 0xcc c (λ same. omega arith))
                b,
      )
