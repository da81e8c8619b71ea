-- ===== src/Debugger/Shell/Valid.antt =====
-- That a session of sdb keeps its invariant (hw4/hw4.cpp).
use nctu_unix.Base.{
  ℕ, ◌≡◌, refl, true, ◌||◌, ◌==◌, List, [], ◌∷◌, none, inl, inr, codes, Option-cases, Bool-cases,
  arith,
}
use nctu_unix.Debugger.State.{
  Kernel, Sdb, ◌>>=◌, Text, Breakpoint, Elf, Phase, nonload, loaded, running,
}
use nctu_unix.Debugger.Breakpoints.Valid.{IsConsistent, IsValid, Keeps, bp-IsValid, del-IsValid}
use nctu_unix.Debugger.Invariant.{Preserves, next, choose, harmless, pure-Preserves, say-Preserves}
use nctu_unix.Debugger.Inspect.{disasm}
use nctu_unix.Debugger.Control.Valid.{
  disasm-Preserves, cont-IsValid, si-IsValid, start-IsValid, run-IsValid,
}
use nctu_unix.Base.{eq_text}
use nctu_unix.Debugger.Load.{
  load, load_elf, fread_at, header_size, is_elf, e_class, no_text, is_nonload,
}
use nctu_unix.Debugger.Host.{IsHost, headers}
use nctu_unix.Debugger.Shell.{execute, script, typed, quit, either, strtoul}
use nctu_unix.Base.Numbers.{atoi}
use nctu_unix.Debugger.Shell.Commands.{
  dump-Preserves, list-Preserves, get_reg-Preserves, set_reg-Preserves, getregs-Preserves,
  vmmap-Preserves, help-Preserves, quit-Keeps,
}

-- With no program loaded there is no breakpoint, so that any .text will do.
reloaded :
    (phase : Phase) (pid : ℕ) (elf elf' : Elf) (bps : List Breakpoint)
    → is_nonload phase ≡ true
    → IsConsistent phase pid elf bps
    → IsConsistent phase pid elf' bps × IsConsistent loaded pid elf' bps
reloaded nonload pid elf elf' [] e v = (
  record { numbered = tt; distinct = tt; in_text = tt; empty_in = refl; pid_set = v.pid_set },
  record { numbered = tt; distinct = tt; in_text = tt; empty_in = tt; pid_set = v.pid_set },
)
reloaded nonload pid elf elf' (b ∷ bs) e v = absurd (ground (arith, v.empty_in))
reloaded loaded pid elf elf' bps e v = absurd (ground (arith, e))
reloaded running pid elf elf' bps e v = absurd (ground (arith, e))

module _ {k : Kernel} where
  load_elf-Keeps :
      (arg : Text) (file : List ℕ) (s : Sdb k)
      → IsValid s
      → is_nonload s.phase ≡ true
      → Keeps (load_elf arg file s)
  unfolding load_elf
  load_elf-Keeps arg file s v e =
      elim (Bool-cases (is_elf (fread_at file 0 header_size s.elf.ehdr))) [
        | inr a ↦ rw a ((reloaded s.phase s.pid s.elf _ s.bp_list e v).0)
        | inl a ↦ elim (Bool-cases (e_class (fread_at file 0 header_size s.elf.ehdr) == 2)) [
          | inr b ↦ rw (a, b) ((reloaded s.phase s.pid s.elf _ s.bp_list e v).0)
          | inl b ↦ elim (Option-cases (headers file s.elf)) [
            | inl t ↦ rw (a, b, t) tt
            | inr (found, t) ↦ rw (a, b, t) ((reloaded s.phase s.pid s.elf _ s.bp_list e v).1)
          ]
        ]
      ]

  pub load-Keeps : (arg : Text) (s : Sdb k) → IsValid s → Keeps (load arg s)
  unfolding load
  load-Keeps arg s v = elim (Bool-cases (is_nonload s.phase)) [
    | inr e ↦ rw e v
    | inl e ↦ elim (Bool-cases (no_text arg)) [
      | inl a ↦ rw (e, a) v
      | inr a ↦ elim (Option-cases (k.file arg s.world)) [
        | inl f ↦ rw (e, a, ◌>>=◌, f) tt
        | inr (file, f) ↦ rw (e, a, ◌>>=◌, f) (load_elf-Keeps arg file s v e)
      ]
    ]
  ]

  module _ (host : IsHost k) where
    disasm-Preserved : (addr size : ℕ) → Preserves {k = k} (disasm addr size)
    disasm-Preserved addr size = disasm-Preserves host.forked addr size

    pub execute-Preserves : (cmd arg1 arg2 : Text) → Preserves {k = k} (execute cmd arg1 arg2)
    unfolding execute
    execute-Preserves cmd arg1 arg2 =
        choose (either cmd "break" "b")
          (choose (no_text arg1) (say-Preserves _) (harmless _ (bp-IsValid (strtoul arg1))))
          (choose (either cmd "cont" "c") (cont-IsValid host.forked) (
            choose (eq_text cmd (codes "delete"))
              (choose (no_text arg1) (say-Preserves _) (harmless _ (del-IsValid (atoi arg1))))
              (choose (either cmd "disasm" "d") (disasm-Preserved (strtoul arg1) 10) (
                choose (either cmd "dump" "x") (dump-Preserves (strtoul arg1)) (
                  choose (either cmd "exit" "q") (harmless quit quit-Keeps) (
                    choose (either cmd "get" "g") (get_reg-Preserves arg1) (
                      choose (eq_text cmd (codes "getregs")) getregs-Preserves (
                        choose (either cmd "help" "h") help-Preserves (
                          choose (either cmd "list" "l") list-Preserves (
                            choose (eq_text cmd (codes "load")) (harmless _ (load-Keeps arg1)) (
                              choose (either cmd "run" "r") (run-IsValid host.forked) (
                                choose (either cmd "vmmap" "m") vmmap-Preserves (
                                  choose (either cmd "set" "s")
                                    (choose (no_text arg1 || no_text arg2) (say-Preserves _)
                                      (set_reg-Preserves arg1 (strtoul arg2)))
                                    (choose (eq_text cmd (codes "si")) (si-IsValid host.forked) (
                                      choose (eq_text cmd (codes "start"))
                                        (start-IsValid host.forked)
                                        (pure-Preserves tt))))))))))))))))

    -- The invariant holds after every command line that is typed, from a state where it holds.
    pub typed-Preserves : (lines : List Text) → Preserves {k = k} (typed lines)
    unfolding typed
    typed-Preserves [] = pure-Preserves tt
    typed-Preserves (line ∷ lines) =
        next (say-Preserves _) (next (execute-Preserves _ _ _) (typed-Preserves lines))

    pub script-Preserves : (lines : List Text) → Preserves {k = k} (script lines)
    unfolding script
    script-Preserves [] = harmless quit quit-Keeps
    script-Preserves (line ∷ lines) = next (execute-Preserves _ _ _) (script-Preserves lines)

-- The state in which sdb starts; `field` reads a byte that is not there as 0.
abbrev pub initial : (k : Kernel) → k.World → Sdb k
initial k w = record {
  phase = nonload;
  file_path = [];
  pid = 0;
  code = none;
  bp_list = [];
  elf = record { sh_addr = 0; sh_offset = 0; sh_size = 0; ehdr = []; str_shdr = [] };
  world = w;
  output = [];
}

pub initial-IsValid : (k : Kernel) (w : k.World) → IsValid (initial k w)
initial-IsValid k w = record {
  numbered = tt;
  distinct = tt;
  in_text = tt;
  empty_in = refl;
  pid_set = refl;
}
