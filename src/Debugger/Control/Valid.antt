-- ===== src/Debugger/Control/Valid.antt =====
-- That the commands which let the program run keep the invariant (hw4/hw4.cpp).
use Prim.Native.String.{String}
use nctu_unix.Base.{
  ℕ, ◌≡◌, ◌≢◌, refl, not, ◌==◌, ltb, List, [], ◌∷◌, some, inl, inr, Option-cases, ==_false,
}
use nctu_unix.Debugger.State.{await-cases}
use nctu_unix.Debugger.State.{
  Kernel, Sdb, M, ◌>>=◌, Regs, Mode, Breakpoint, Phase, loaded, running, Text, Elf, Insn,
  is_running,
}
use nctu_unix.Debugger.Breakpoints.{bp, intext}
use nctu_unix.Debugger.Breakpoints.Valid.{IsConsistent, IsValid, Keeps, bp-IsValid}
use nctu_unix.Debugger.Invariant.{
  Preserves, bind, next, choose, harmless, at_phase, get-Preserves, pure-Preserves, say-Preserves,
  set_world-Preserves, or_error-Preserves, await-Preserves, poke_text-Preserves,
  get_registers-Preserves, set_registers-Preserves,
}
use nctu_unix.Debugger.Inspect.{disasm, getcode, show_insns, show_count}
use nctu_unix.Debugger.Control.{
  arm_after, chkbp, resume, report_exit, show_hit, hit_passed, hit_reached, report_stop, if_running,
  cont, si, launch, start, run, wifexited, wifstopped, wstopsig, sigtrap, before,
}

-- After an exit the state is that of a program which is only loaded.
unloaded :
    (phase : Phase) (pid : ℕ) (elf : Elf) (bps : List Breakpoint)
    → IsConsistent phase pid elf bps
    → IsConsistent loaded 0 elf bps
unloaded phase pid elf bps v = record {
  numbered = v.numbered;
  distinct = v.distinct;
  in_text = v.in_text;
  empty_in = tt;
  pid_set = refl;
}

-- After a start it is that of a running one.
launched :
    (phase : Phase) (pid p : ℕ) (elf : Elf) (bps : List Breakpoint)
    → p ≢ 0
    → IsConsistent phase pid elf bps
    → IsConsistent running p elf bps
launched phase pid p elf bps h v = record {
  numbered = v.numbered;
  distinct = v.distinct;
  in_text = v.in_text;
  empty_in = tt;
  pid_set = rw (==_false p 0 h) refl;
}

module _ {k : Kernel} where
  arm_after-Preserves : (rip : ℕ) (bs : List Breakpoint) → Preserves {k = k} (arm_after rip bs)
  unfolding arm_after
  arm_after-Preserves rip [] = pure-Preserves tt
  arm_after-Preserves rip (b ∷ bs) =
      next (choose (ltb rip b.addr) (harmless (bp b.addr) (bp-IsValid b.addr)) (pure-Preserves tt))
        (arm_after-Preserves rip bs)

  chkbp-Preserves : Preserves {k = k} chkbp
  unfolding chkbp
  chkbp-Preserves =
      bind get_registers-Preserves
        (λ regs. bind get-Preserves (λ s. arm_after-Preserves regs.rip s.bp_list))

  resume-Preserves : (func : String) (mode : Mode) → Preserves {k = k} (resume func mode)
  unfolding resume
  resume-Preserves func mode = bind get-Preserves (λ s.
      bind (or_error-Preserves func (k.resume mode s.pid s.world)) (λ w.
        next (set_world-Preserves w) (
          bind (await-Preserves s.pid w)
            (λ (x : ℕ × k.World). next (set_world-Preserves x.1) (pure-Preserves x.0)))))

  report_exit-Preserves : (status : ℕ) → Preserves {k = k} (report_exit status)
  unfolding report_exit
  report_exit-Preserves status =
      choose (wifexited status) (harmless _ (λ s v. unloaded s.phase s.pid s.elf s.bp_list v))
        (pure-Preserves tt)

  -- `fork` gives the parent a process id.
  module _
      (forked : (path : Text) (w : k.World) (x : ℕ × k.World)
        → k.spawn path w ≡ some x
        → x.0 ≢ 0) where
    getcode-Keeps : (s : Sdb k) → IsValid s → Keeps (getcode s)
    unfolding getcode
    getcode-Keeps s v = elim (Option-cases s.code) [
      | inl e ↦ elim (Option-cases (k.file s.file_path s.world)) [
        | inl f ↦ rw (getcode, e, f) tt
        | inr (code, f) ↦ rw (getcode, e, f) v
      ]
      | inr (code, e) ↦ rw e v
    ]

    show_insns-Preserves :
        (elf : Elf) (insns : List Insn) → Preserves {k = k} (show_insns elf insns)
    unfolding show_insns
    show_insns-Preserves elf [] = pure-Preserves tt
    show_insns-Preserves elf (insn ∷ insns) =
        choose (not (intext elf insn.address)) (say-Preserves _)
          (next (say-Preserves _) (show_insns-Preserves elf insns))

    show_count-Preserves :
        (elf : Elf) (insns : List Insn) → Preserves {k = k} (show_count elf insns)
    unfolding show_count
    show_count-Preserves elf [] = say-Preserves _
    show_count-Preserves elf (insn ∷ insns) = show_insns-Preserves elf (insn ∷ insns)

    pub disasm-Preserves : (addr size : ℕ) → Preserves {k = k} (disasm addr size)
    unfolding disasm
    disasm-Preserves addr size = bind get-Preserves (λ s. choose (addr == 0) (say-Preserves _) (
        choose (not (is_running s.phase)) (say-Preserves _) (
          choose (not (intext s.elf addr)) (say-Preserves _) (
            bind (harmless getcode getcode-Keeps) (λ code. bind (or_error-Preserves _ _) (λ insns.
              choose (k.reads_inside _ _ addr size) (show_count-Preserves s.elf insns)
                (harmless _ (λ t v. tt))))))))

    show_hit-Preserves : (b : Breakpoint) → Preserves {k = k} (show_hit b)
    unfolding show_hit
    show_hit-Preserves b =
        next (say-Preserves _) (next (disasm-Preserves b.addr 1) (poke_text-Preserves _ _ _))

    hit_passed-Preserves :
        (bs : List Breakpoint) (regs : Regs) → Preserves {k = k} (hit_passed bs regs)
    unfolding hit_passed
    hit_passed-Preserves [] regs = pure-Preserves tt
    hit_passed-Preserves (b ∷ bs) regs =
        choose (b.addr == before regs.rip)
          (next (show_hit-Preserves b)
            (next (set_registers-Preserves _) (hit_passed-Preserves bs _)))
          (hit_passed-Preserves bs regs)

    hit_reached-Preserves :
        (bs : List Breakpoint) (regs : Regs) → Preserves {k = k} (hit_reached bs regs)
    unfolding hit_reached
    hit_reached-Preserves [] regs = pure-Preserves tt
    hit_reached-Preserves (b ∷ bs) regs =
        next (choose (b.addr == regs.rip) (show_hit-Preserves b) (pure-Preserves tt))
          (hit_reached-Preserves bs regs)

    report_stop-Preserves :
        (hit : List Breakpoint → Regs → M k (Unit {0})) (status : ℕ)
        → ((bs : List Breakpoint) (regs : Regs) → Preserves (hit bs regs))
        → Preserves (report_stop hit status)
    unfolding report_stop
    report_stop-Preserves hit status h = choose (not (wifstopped status)) (pure-Preserves tt) (
        choose (wstopsig status == sigtrap)
          (bind get_registers-Preserves (λ regs. bind get-Preserves (λ s. h s.bp_list regs)))
          (bind get-Preserves (λ s. say-Preserves _)))

    if_running-Preserves : (f : M k (Unit {0})) → Preserves f → Preserves (if_running f)
    unfolding if_running
    if_running-Preserves f p =
        bind get-Preserves (λ s. choose (not (is_running s.phase)) (say-Preserves _) p)

    -- `cont` keeps it.
    pub cont-IsValid : Preserves {k = k} cont
    unfolding cont
    cont-IsValid = if_running-Preserves _ (
        next chkbp-Preserves (
          bind (resume-Preserves _ _) (λ status.
            next (report_exit-Preserves status)
              (report_stop-Preserves hit_passed status hit_passed-Preserves))))

    -- `si` keeps it.
    pub si-IsValid : Preserves {k = k} si
    unfolding si
    si-IsValid = if_running-Preserves _ (
        next chkbp-Preserves (
          bind (resume-Preserves _ _) (λ status.
            next (report_exit-Preserves status)
              (report_stop-Preserves hit_reached status hit_reached-Preserves))))

    launch-Keeps : (s : Sdb k) → IsValid s → Keeps (launch s)
    unfolding launch
    launch-Keeps s v = elim (Option-cases (k.spawn s.file_path s.world)) [
      | inl e ↦ rw e tt
      | inr (x, e) ↦ elim (await-cases {k = k} x.0 x.1) [
        | inl a ↦ rw (e, ◌>>=◌, a) tt
        | inr (inl a) ↦ rw (e, ◌>>=◌, a) tt
        | inr (inr (y, a)) ↦ elim (Option-cases (k.set_options x.0 y.1)) [
          | inl e'' ↦ rw (e, ◌>>=◌, a, e'') tt
          | inr (w, e'') ↦
              rw (e, ◌>>=◌, a, e'')
                (launched s.phase s.pid x.0 s.elf s.bp_list (forked s.file_path s.world x e) v)
        ]
      ]
    ]

    -- `start` keeps it.
    pub start-IsValid : Preserves {k = k} start
    unfolding start
    start-IsValid = bind get-Preserves (λ s.
        at_phase s.phase (say-Preserves _)
          (choose (s.pid == 0) (harmless launch launch-Keeps) (say-Preserves _)) (say-Preserves _))

    -- `run` keeps it.
    pub run-IsValid : Preserves {k = k} run
    unfolding run
    run-IsValid =
        bind get-Preserves
          (λ s. at_phase s.phase (say-Preserves _) (next start-IsValid cont-IsValid) cont-IsValid)
