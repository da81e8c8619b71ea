-- ===== src/Debugger/Shell/Commands.antt =====
-- The commands of sdb (hw4/hw4.cpp) that only look at the program, or end.
use nctu_unix.Base.{
  ℕ, zero, suc, ◌+◌, ◌%◌, ◌^◌, not, ◌==◌, List, [], ◌∷◌, Option, none, some, inl, inr, Bool-cases,
}
use nctu_unix.Debugger.State.{Kernel, Sdb, Text, Regs, Breakpoint, is_running}
use nctu_unix.Debugger.Breakpoints.{list, list_from, intext}
use nctu_unix.Debugger.Breakpoints.Valid.{IsValid, Keeps}
use nctu_unix.Debugger.Invariant.{
  Preserves, bind, next, choose, harmless, get-Preserves, pure-Preserves, say-Preserves,
  or_error-Preserves, get_registers-Preserves, set_registers-Preserves,
}
use nctu_unix.Debugger.Inspect.{dump, dump_rows}
use nctu_unix.Debugger.Registers.{
  Register, register, get_reg, set_reg, getregs, show_named, write_named, is_empty,
}
use nctu_unix.Debugger.Vmmap.{vmmap, show_maps}
use nctu_unix.Debugger.Shell.{quit, help}

module _ {k : Kernel} where
  dump_rows-Preserves : (n addr : ℕ) → Preserves {k = k} (dump_rows n addr)
  unfolding dump_rows
  dump_rows-Preserves zero addr = pure-Preserves tt
  dump_rows-Preserves (suc n) addr =
      bind get-Preserves
        (λ s. next (say-Preserves _) (dump_rows-Preserves n ((addr + 16) % 2 ^ 64)))

  pub dump-Preserves : (addr : ℕ) → Preserves {k = k} (dump addr)
  unfolding dump
  dump-Preserves addr = bind get-Preserves (λ s. choose (addr == 0) (say-Preserves _) (
      choose (not (is_running s.phase)) (say-Preserves _)
        (choose (not (intext s.elf addr)) (say-Preserves _) (dump_rows-Preserves 5 addr))))

  list_from-Preserves : (bs : List Breakpoint) → Preserves {k = k} (list_from bs)
  unfolding list_from
  list_from-Preserves [] = pure-Preserves tt
  list_from-Preserves (b ∷ bs) = next (say-Preserves _) (list_from-Preserves bs)

  pub list-Preserves : Preserves {k = k} list
  unfolding list
  list-Preserves = bind get-Preserves (λ s. list_from-Preserves s.bp_list)

  show_named-Preserves :
      (name : Text) (r : Option Register) (regs : Regs) → Preserves {k = k} (show_named name r regs)
  unfolding show_named
  show_named-Preserves name none regs = pure-Preserves tt
  show_named-Preserves name (some r) regs = say-Preserves _

  pub get_reg-Preserves : (name : Text) → Preserves {k = k} (get_reg name)
  unfolding get_reg
  get_reg-Preserves name = bind get-Preserves (λ s. choose (is_empty name) (say-Preserves _) (
      choose (not (is_running s.phase)) (say-Preserves _)
        (bind get_registers-Preserves (λ regs. show_named-Preserves name (register name) regs))))

  pub set_reg-Preserves : (name : Text) (val : ℕ) → Preserves {k = k} (set_reg name val)
  unfolding set_reg
  set_reg-Preserves name val = bind get-Preserves (λ s.
      choose (not (is_running s.phase)) (say-Preserves _) (
        bind get_registers-Preserves
          (λ regs. set_registers-Preserves (write_named (register name) val regs))))

  pub getregs-Preserves : Preserves {k = k} getregs
  unfolding getregs
  getregs-Preserves = bind get-Preserves (λ s.
      choose (not (is_running s.phase)) (say-Preserves _)
        (bind get_registers-Preserves (λ regs. harmless _ (λ t v. v))))

  show_maps-Preserves : (lines : List Text) → Preserves {k = k} (show_maps lines)
  unfolding show_maps
  show_maps-Preserves [] = pure-Preserves tt
  show_maps-Preserves (line ∷ lines) = next (say-Preserves _) (show_maps-Preserves lines)

  pub vmmap-Preserves : Preserves {k = k} vmmap
  unfolding vmmap
  vmmap-Preserves = bind get-Preserves (λ s. choose (not (is_running s.phase)) (say-Preserves _) (
      bind (or_error-Preserves "fopen" (k.maps s.pid s.world)) (λ lines.
        choose (k.null_line s.world) (show_maps-Preserves lines) (harmless _ (λ t v. tt)))))

  pub help-Preserves : Preserves {k = k} help
  help-Preserves = harmless help (λ s v. v)

  pub quit-Keeps : (s : Sdb k) → IsValid s → Keeps (quit s)
  unfolding quit
  quit-Keeps s v = elim (Bool-cases (s.pid == 0)) [ inl e ↦ rw e tt | inr e ↦ rw e tt ]
