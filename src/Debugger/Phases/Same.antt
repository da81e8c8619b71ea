-- ===== src/Debugger/Phases/Same.antt =====
-- The commands of sdb (hw4/hw4.cpp) that leave its state NONLOAD, LOADED or RUNNING as it is.
use Prim.Native.String.{String}
use nctu_unix.Base.{
  ℕ, zero, suc, ◌+◌, ◌%◌, ◌^◌, ◌≡◌, refl, not, ◌==◌, ltb, List, [], ◌∷◌, Option, none, some, inl,
  inr, Option-cases, ℤ, pos, negsuc, get_elem?,
}
use nctu_unix.Debugger.State.{
  Kernel, Sdb, M, Regs, Mode, Breakpoint, Text, Elf, Insn, is_running, fault, Undefined,
  wrong_index, over_read, stray_line, set_bp_list, say, lit, dec,
}
use nctu_unix.Debugger.Breakpoints.{
  bp, intext, is_int3, remember, has_addr, del, del_found, find_id, list, list_from,
}
use nctu_unix.Debugger.Inspect.{disasm, getcode, show_insns, show_count, dump, dump_rows}
use nctu_unix.Debugger.Control.{
  arm_after, chkbp, resume, show_hit, hit_passed, hit_reached, report_stop, wifstopped, wstopsig,
  sigtrap, before,
}
use nctu_unix.Debugger.Registers.{
  Register, register, get_reg, set_reg, getregs, show_named, write_named, is_empty,
}
use nctu_unix.Debugger.Vmmap.{vmmap, show_maps}
use nctu_unix.Debugger.Shell.{help}
use nctu_unix.Debugger.Phases.{
  Behind, Stays, bind_same, next_same, choose_same, same, get-Stays, pure-Stays, say-Stays,
  set_world-Stays, or_error-Stays, await-Stays, poke_text-Stays, get_registers-Stays,
  set_registers-Stays,
}

module _ {k : Kernel} where
  set_bp_list-Stays : (bps : List Breakpoint) → Stays {k = k} (set_bp_list bps)
  set_bp_list-Stays bps = same (set_bp_list bps) (λ s. refl)

  remember-Stays : (addr code : ℕ) → Stays {k = k} (remember addr code)
  unfolding remember
  remember-Stays addr code =
      bind_same get-Stays
        (λ s. choose_same (has_addr s.bp_list addr) (pure-Stays tt) (set_bp_list-Stays _))

  pub bp-Stays : (addr : ℕ) → Stays {k = k} (bp addr)
  unfolding bp
  bp-Stays addr = bind_same get-Stays (λ s. choose_same (not (is_running s.phase)) (say-Stays _) (
      choose_same (not (intext s.elf addr)) (say-Stays _) (
        choose_same (is_int3 (k.peek s.pid addr s.world)) (pure-Stays tt)
          (next_same (poke_text-Stays _ _ _) (remember-Stays addr _)))))

  fault-Stays : (why : Undefined) → Stays {k = k} {A = Unit {0}} (λ s. fault why)
  fault-Stays why = same _ (λ s. tt)

  del_found-Stays : (i id : ℕ) (b : Breakpoint) → Stays {k = k} (del_found i id b)
  unfolding del_found
  del_found-Stays i id b =
      next_same (poke_text-Stays _ _ _)
        (bind_same get-Stays (λ s. next_same (set_bp_list-Stays _) (say-Stays _)))

  at_index-Stays :
      (i n : ℕ) (o : Option Breakpoint)
      → Stays {k = k} (elim o [ none ↦ (λ s. fault wrong_index) | some b ↦ del_found i n b ])
  at_index-Stays i n none = fault-Stays wrong_index
  at_index-Stays i n (some b) = del_found-Stays i n b

  found-Stays :
      (bps : List Breakpoint) (i : ℕ) (id : ℤ)
      → Stays {k = k} (elim id [
        | pos n ↦ elim (get_elem? bps n) [
          | none ↦ (λ s. fault wrong_index)
          | some b ↦ del_found i n b
        ]
        | negsuc n ↦ (λ s. fault wrong_index)
      ])
  found-Stays bps i (pos n) = at_index-Stays i n (get_elem? bps n)
  found-Stays bps i (negsuc n) = fault-Stays wrong_index

  missing_or_found-Stays :
      (bps : List Breakpoint) (id : ℤ) (o : Option ℕ)
      → Stays {k = k} (elim o [
        | none ↦ say (lit "** breakpoint " ∷ dec id ∷ lit " does not exist" ∷ [])
        | some i ↦ elim id [
          | pos n ↦ elim (get_elem? bps n) [
            | none ↦ (λ s. fault wrong_index)
            | some b ↦ del_found i n b
          ]
          | negsuc n ↦ (λ s. fault wrong_index)
        ]
      ])
  missing_or_found-Stays bps id none = say-Stays _
  missing_or_found-Stays bps id (some i) = found-Stays bps i id

  pub del-Stays : (id : ℤ) → Stays {k = k} (del id)
  unfolding del
  del-Stays id = bind_same get-Stays (λ s.
      choose_same (not (is_running s.phase)) (say-Stays _)
        (missing_or_found-Stays s.bp_list id (find_id s.bp_list id)))

  arm_after-Stays : (rip : ℕ) (bs : List Breakpoint) → Stays {k = k} (arm_after rip bs)
  unfolding arm_after
  arm_after-Stays rip [] = pure-Stays tt
  arm_after-Stays rip (b ∷ bs) =
      next_same (choose_same (ltb rip b.addr) (bp-Stays b.addr) (pure-Stays tt))
        (arm_after-Stays rip bs)

  pub chkbp-Stays : Stays {k = k} chkbp
  unfolding chkbp
  chkbp-Stays =
      bind_same get_registers-Stays
        (λ regs. bind_same get-Stays (λ s. arm_after-Stays regs.rip s.bp_list))

  pub resume-Stays : (func : String) (mode : Mode) → Stays {k = k} (resume func mode)
  unfolding resume
  resume-Stays func mode = bind_same get-Stays (λ s.
      bind_same (or_error-Stays func (k.resume mode s.pid s.world)) (λ w.
        next_same (set_world-Stays w) (
          bind_same (await-Stays s.pid w)
            (λ (x : ℕ × k.World). next_same (set_world-Stays x.1) (pure-Stays x.0)))))

  getcode-same : (s : Sdb k) → Behind (λ p. p ≡ s.phase) (getcode s)
  unfolding getcode
  getcode-same s = elim (Option-cases s.code) [
    | inl e ↦ elim (Option-cases (k.file s.file_path s.world)) [
      | inl f ↦ rw (getcode, e, f) tt
      | inr (code, f) ↦ rw (getcode, e, f) refl
    ]
    | inr (code, e) ↦ rw (getcode, e) refl
  ]

  show_insns-Stays : (elf : Elf) (insns : List Insn) → Stays {k = k} (show_insns elf insns)
  unfolding show_insns
  show_insns-Stays elf [] = pure-Stays tt
  show_insns-Stays elf (insn ∷ insns) =
      choose_same (not (intext elf insn.address)) (say-Stays _)
        (next_same (say-Stays _) (show_insns-Stays elf insns))

  show_count-Stays : (elf : Elf) (insns : List Insn) → Stays {k = k} (show_count elf insns)
  unfolding show_count
  show_count-Stays elf [] = say-Stays _
  show_count-Stays elf (insn ∷ insns) = show_insns-Stays elf (insn ∷ insns)

  pub disasm-Stays : (addr size : ℕ) → Stays {k = k} (disasm addr size)
  unfolding disasm
  disasm-Stays addr size = bind_same get-Stays (λ s. choose_same (addr == 0) (say-Stays _) (
      choose_same (not (is_running s.phase)) (say-Stays _) (
        choose_same (not (intext s.elf addr)) (say-Stays _) (
          bind_same (same getcode getcode-same) (λ code. bind_same (or_error-Stays _ _) (λ insns.
            choose_same (k.reads_inside _ _ addr size) (show_count-Stays s.elf insns)
              (fault-Stays over_read)))))))

  show_hit-Stays : (b : Breakpoint) → Stays {k = k} (show_hit b)
  unfolding show_hit
  show_hit-Stays b =
      next_same (say-Stays _) (next_same (disasm-Stays b.addr 1) (poke_text-Stays _ _ _))

  pub hit_passed-Stays : (bs : List Breakpoint) (regs : Regs) → Stays {k = k} (hit_passed bs regs)
  unfolding hit_passed
  hit_passed-Stays [] regs = pure-Stays tt
  hit_passed-Stays (b ∷ bs) regs =
      choose_same (b.addr == before regs.rip)
        (next_same (show_hit-Stays b) (next_same (set_registers-Stays _) (hit_passed-Stays bs _)))
        (hit_passed-Stays bs regs)

  pub hit_reached-Stays : (bs : List Breakpoint) (regs : Regs) → Stays {k = k} (hit_reached bs regs)
  unfolding hit_reached
  hit_reached-Stays [] regs = pure-Stays tt
  hit_reached-Stays (b ∷ bs) regs =
      next_same (choose_same (b.addr == regs.rip) (show_hit-Stays b) (pure-Stays tt))
        (hit_reached-Stays bs regs)

  pub report_stop-Stays :
      (hit : List Breakpoint → Regs → M k (Unit {0})) (status : ℕ)
      → ((bs : List Breakpoint) (regs : Regs) → Stays (hit bs regs))
      → Stays (report_stop hit status)
  unfolding report_stop
  report_stop-Stays hit status h = choose_same (not (wifstopped status)) (pure-Stays tt) (
      choose_same (wstopsig status == sigtrap)
        (bind_same get_registers-Stays (λ regs. bind_same get-Stays (λ s. h s.bp_list regs)))
        (bind_same get-Stays (λ s. say-Stays _)))

  dump_rows-Stays : (n addr : ℕ) → Stays {k = k} (dump_rows n addr)
  unfolding dump_rows
  dump_rows-Stays zero addr = pure-Stays tt
  dump_rows-Stays (suc n) addr =
      bind_same get-Stays (λ s. next_same (say-Stays _) (dump_rows-Stays n ((addr + 16) % 2 ^ 64)))

  pub dump-Stays : (addr : ℕ) → Stays {k = k} (dump addr)
  unfolding dump
  dump-Stays addr = bind_same get-Stays (λ s. choose_same (addr == 0) (say-Stays _) (
      choose_same (not (is_running s.phase)) (say-Stays _)
        (choose_same (not (intext s.elf addr)) (say-Stays _) (dump_rows-Stays 5 addr))))

  list_from-Stays : (bs : List Breakpoint) → Stays {k = k} (list_from bs)
  unfolding list_from
  list_from-Stays [] = pure-Stays tt
  list_from-Stays (b ∷ bs) = next_same (say-Stays _) (list_from-Stays bs)

  pub list-Stays : Stays {k = k} list
  unfolding list
  list-Stays = bind_same get-Stays (λ s. list_from-Stays s.bp_list)

  show_named-Stays :
      (name : Text) (r : Option Register) (regs : Regs) → Stays {k = k} (show_named name r regs)
  unfolding show_named
  show_named-Stays name none regs = pure-Stays tt
  show_named-Stays name (some r) regs = say-Stays _

  pub get_reg-Stays : (name : Text) → Stays {k = k} (get_reg name)
  unfolding get_reg
  get_reg-Stays name = bind_same get-Stays (λ s. choose_same (is_empty name) (say-Stays _) (
      choose_same (not (is_running s.phase)) (say-Stays _)
        (bind_same get_registers-Stays (λ regs. show_named-Stays name (register name) regs))))

  pub set_reg-Stays : (name : Text) (val : ℕ) → Stays {k = k} (set_reg name val)
  unfolding set_reg
  set_reg-Stays name val = bind_same get-Stays (λ s.
      choose_same (not (is_running s.phase)) (say-Stays _) (
        bind_same get_registers-Stays
          (λ regs. set_registers-Stays (write_named (register name) val regs))))

  pub getregs-Stays : Stays {k = k} getregs
  unfolding getregs
  getregs-Stays = bind_same get-Stays (λ s.
      choose_same (not (is_running s.phase)) (say-Stays _)
        (bind_same get_registers-Stays (λ regs. same _ (λ t. refl))))

  show_maps-Stays : (lines : List Text) → Stays {k = k} (show_maps lines)
  unfolding show_maps
  show_maps-Stays [] = pure-Stays tt
  show_maps-Stays (line ∷ lines) = next_same (say-Stays _) (show_maps-Stays lines)

  pub vmmap-Stays : Stays {k = k} vmmap
  unfolding vmmap
  vmmap-Stays = bind_same get-Stays (λ s. choose_same (not (is_running s.phase)) (say-Stays _) (
      bind_same (or_error-Stays "fopen" (k.maps s.pid s.world)) (λ lines.
        choose_same (k.null_line s.world) (show_maps-Stays lines) (fault-Stays stray_line))))

  pub help-Stays : Stays {k = k} help
  help-Stays = same help (λ s. refl)
