-- ===== src/Debugger/Control/Hit.antt =====
-- What `cont` of hw4/hw4.cpp does when the program stops at a breakpoint.
use Prim.Native.String.{String}
use nctu_unix.Base.{
  ℕ, ◌+◌, ◌-◌, ◌≡◌, refl, sym, ap, ◌∙◌, Bool, true, false, not, ◌||◌, ◌==◌, if◌then◌else◌, List, [],
  ◌∷◌, ◌++◌, Option, none, some, arith, Option-cases, inl, inr, ==_iff,
}
use nctu_unix.Base.Memory.{store64}
use nctu_unix.Debugger.State.{
  Kernel, Sdb, M, done, pure, ◌>>=◌, ◌>>◌, get, say, or_error, Regs, Breakpoint, Text, Insn, Elf,
  Item, is_running, lit, set_registers,
}
use nctu_unix.Debugger.Ptrace.{IsPtrace}
use nctu_unix.Debugger.Breakpoints.{has_addr, poke_text, intext}
use nctu_unix.Debugger.Breakpoints.Patch.{Writable}
use nctu_unix.Debugger.Inspect.{disasm, getcode, show_insns, show_count}
use nctu_unix.Debugger.Control.{hit_passed, show_hit, before}

or_left : (a b : Bool) → (a || b) ≡ false → a ≡ false
or_left a b h = ground (arith, h)

or_right : (a b : Bool) → (a || b) ≡ false → b ≡ false
or_right a b h = ground (arith, h)

-- A command that comes back and leaves the program and its process alone.
pub record Quiet {k : Kernel} {A : Type 0} (f : M k A) : Type 0 where
  pub comes_back :
      (s : Sdb k)
      → (a : A) × (s' : Sdb k) × (f s ≡ done a s') × (s'.world ≡ s.world) × (s'.pid ≡ s.pid)

module _ {k : Kernel} where
  -- No entry has the address before `rip`.
  passed_none :
      (bs : List Breakpoint) (regs : Regs)
      → has_addr bs (before regs.rip) ≡ false
      → hit_passed {k = k} bs regs ≡ pure tt
  unfolding hit_passed has_addr
  passed_none [] regs h = refl
  passed_none (b ∷ bs) regs h =
      rw (or_left (b.addr == before regs.rip) (has_addr bs (before regs.rip)) h) (
        passed_none bs regs
          (or_right (b.addr == before regs.rip) (has_addr bs (before regs.rip)) h))

  found_one :
      (front : List Breakpoint) (b : Breakpoint) (back : List Breakpoint) (regs : Regs) (s : Sdb k)
      → has_addr front (before regs.rip) ≡ false
      → b.addr ≡ before regs.rip
      → has_addr back (before (before regs.rip)) ≡ false
      → hit_passed (front ++ (b ∷ back)) regs s
        ≡ (show_hit b >> (set_registers (record regs { rip = before regs.rip }) >> pure tt)) s
  unfolding hit_passed has_addr
  found_one [] b back regs s f e h =
      rw
        (
          (==_iff b.addr (before regs.rip)).1 e,
          passed_none back (record regs { rip = before regs.rip }) h,
        )
        refl
  found_one (x ∷ front) b back regs s f e h =
      rw (or_left (x.addr == before regs.rip) (has_addr front (before regs.rip)) f) (
        found_one front b back regs s
          (or_right (x.addr == before regs.rip) (has_addr front (before regs.rip)) f) e h)

  sequence :
      {A B : Type 0} {f : M k A} {g : A → M k B}
      → Quiet f
      → ((a : A) → Quiet (g a))
      → Quiet (f >>= g)
  sequence {f = f} {g = g} p q = record {
    comes_back = λ s.
        let (a, s', e, w, i) = p.comes_back s in
        let (b, s'', e', w', i') = (q a).comes_back s' in
        (b, s'', rw (◌>>=◌, e) e', w' ∙ w, i' ∙ i);
  }

  both : {A B : Type 0} {f : M k A} {g : M k B} → Quiet f → Quiet g → Quiet (f >> g)
  both p q = sequence p (λ a. q)

  either_way :
      {A : Type 0} (b : Bool) {f g : M k A} → Quiet f → Quiet g → Quiet (if b then f else g)
  either_way true p q = p
  either_way false p q = q

  if_true :
      {A : Type 0} {b : Bool} {f : M k A} (g : M k A)
      → b ≡ true
      → Quiet f
      → Quiet (if b then f else g)
  if_true g e p = rw e p

  get-Quiet : Quiet {k = k} get
  get-Quiet = record { comes_back = λ s. (s, s, refl, refl, refl) }

  pure-Quiet : {A : Type 0} (a : A) → Quiet {k = k} (pure a)
  pure-Quiet a = record { comes_back = λ s. (a, s, refl, refl, refl) }

  say-Quiet : (line : List Item) → Quiet {k = k} (say line)
  say-Quiet line = record {
    comes_back = λ s. (tt, record s { output = line ∷ s.output }, refl, refl, refl);
  }

  show_insns-Quiet : (elf : Elf) (insns : List Insn) → Quiet {k = k} (show_insns elf insns)
  unfolding show_insns
  show_insns-Quiet elf [] = pure-Quiet tt
  show_insns-Quiet elf (insn ∷ insns) =
      either_way (not (intext elf insn.address)) (say-Quiet _)
        (both (say-Quiet _) (show_insns-Quiet elf insns))

  show_count-Quiet : (elf : Elf) (insns : List Insn) → Quiet {k = k} (show_count elf insns)
  unfolding show_count
  show_count-Quiet elf [] = say-Quiet _
  show_count-Quiet elf (insn ∷ insns) = show_insns-Quiet elf (insn ∷ insns)

  or_error-Quiet :
      {A : Type 0} (func : String) (o : Option A)
      → (a : A) × (o ≡ some a)
      → Quiet {k = k} (or_error func o)
  or_error-Quiet func none (a, e) = absurd (ground (arith, e))
  or_error-Quiet func (some b) h = pure-Quiet b

  -- The file can be read, and capstone opened, which reads only within the file.
  module _ (readable : (path : Text) (w : k.World) → (code : List ℕ) × (k.file path w ≡ some code))
      (opens : (code : List ℕ) (offset addr size : ℕ)
        → (insns : List Insn) × (k.disassemble code offset addr size ≡ some insns)
          × (k.reads_inside code offset addr size ≡ true)) where
    getcode-Quiet : Quiet {k = k} getcode
    unfolding getcode
    getcode-Quiet = record {
      comes_back = λ s. elim (Option-cases s.code) [
        | inl e ↦
            let (code, f) = readable s.file_path s.world in
            (code, record s { code = some code }, rw (getcode, e, f) refl, refl, refl)
        | inr (code, e) ↦ (code, s, rw e refl, refl, refl)
      ];
    }

    pub disasm-Quiet : (addr size : ℕ) → Quiet {k = k} (disasm addr size)
    unfolding disasm
    disasm-Quiet addr size = sequence get-Quiet (λ s. either_way (addr == 0) (say-Quiet _) (
        either_way (not (is_running s.phase)) (say-Quiet _) (
          either_way (not (intext s.elf addr)) (say-Quiet _) (
            sequence getcode-Quiet (λ code.
              let (insns, e, inside) =
                opens code (s.elf.sh_offset + (addr - s.elf.sh_addr)) addr size in
              sequence (or_error-Quiet _ _ (insns, e))
                (λ insns. if_true _ inside (show_count-Quiet s.elf insns)))))))

-- After a stop at a breakpoint, where no later entry has the address right below it, `cont`
-- comes back with the word that was saved written at the breakpoint, no other byte changed, and
-- `rip` back at the breakpoint: provided that the file of the program can be read, capstone opened,
-- which reads only within that file, and words and registers written.
pub hit_restores :
    (k : Kernel) (ptrace : IsPtrace k)
    (readable : (path : Text) (w : k.World) → (code : List ℕ) × (k.file path w ≡ some code))
    (opens : (code : List ℕ) (offset addr size : ℕ)
      → (insns : List Insn) × (k.disassemble code offset addr size ≡ some insns)
        × (k.reads_inside code offset addr size ≡ true))
    (writable : (p : ℕ) → Writable k p)
    (settable : (p : ℕ) (regs : Regs) (w : k.World)
      → (w' : k.World) × (k.set_regs p regs w ≡ some w'))
    (front : List Breakpoint) (b : Breakpoint) (back : List Breakpoint) (regs : Regs) (s : Sdb k)
    → has_addr front (before regs.rip) ≡ false
    → b.addr ≡ before regs.rip
    → has_addr back (before (before regs.rip)) ≡ false
    → (s' : Sdb k) × (hit_passed (front ++ (b ∷ back)) regs s ≡ done tt s')
      × (k.get_regs s'.pid s'.world ≡ some (record regs { rip = b.addr }))
      × ((c : ℕ) → ptrace.memory s'.world c ≡ store64 (ptrace.memory s.world) b.addr b.orig_code c)
unfolding show_hit poke_text
hit_restores k ptrace readable opens writable settable front b back regs s f e h =
    let (a, t, d, w, i) =
      (disasm-Quiet readable opens b.addr 1).comes_back
        (record s { output = (lit "** breakpoint @ " ∷ []) ∷ s.output }) in
    let (w1, h1) = writable t.pid b.addr b.orig_code t.world in
    let (w2, h2) = settable t.pid (record regs { rip = before regs.rip }) w1 in
    (
      record t { world = w2 },
      found_one front b back regs s f e h ∙ rw (◌>>◌, ◌>>=◌, d, h1, h2) refl,
      ptrace.registers_kept t.pid (record regs { rip = before regs.rip }) w1 w2 h2
          ∙ ap (λ (r : ℕ). some (record regs { rip = r })) (sym e),
      λ c.
          ptrace.registers_apart t.pid _ w1 w2 h2 c
          ∙ ptrace.poke_writes t.pid b.addr b.orig_code t.world w1 h1 c
          ∙ ap (λ (x : k.World). store64 (ptrace.memory x) b.addr b.orig_code c) w,
    )
