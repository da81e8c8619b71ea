-- ===== src/Debugger/Tests.antt =====
-- sdb (hw4/hw4.cpp) run on a small kernel.
use nctu_unix.Base.{ℕ, ◌≡◌, ◌≢◌, refl, inl, [], ◌∷◌, some, pos, codes, arith}
use nctu_unix.Base.Memory.{load64, store64, update}
use nctu_unix.Debugger.State.{Sdb, done, ◌>>◌, Regs, lit, dec}
use nctu_unix.Debugger.Breakpoints.{bp, del, intext, has_addr}
use nctu_unix.Debugger.Breakpoints.Valid.{Keeps}
use nctu_unix.Debugger.Breakpoints.Patch.{with_breakpoint, bp_arms, bp-del}
use nctu_unix.Debugger.Control.{hit_passed}
use nctu_unix.Debugger.Control.Hit.{hit_restores}
use nctu_unix.Debugger.State.{Breakpoint}
use nctu_unix.Debugger.Control.{start, launch}
use nctu_unix.Debugger.Shell.{execute}
use nctu_unix.Debugger.Phases.{Step}
use nctu_unix.Debugger.Phases.Steps.{execute-Step}
use nctu_unix.Debugger.State.{loaded, running, await}
use nctu_unix.Debugger.Main.{main}
use nctu_unix.Debugger.Main.Valid.{main-IsValid}
use nctu_unix.Debugger.Main.Ends.{main_ends}
use nctu_unix.Debugger.Shell.Valid.{initial}
use nctu_unix.Debugger.Inspect.{dump}
use nctu_unix.Debugger.Inspect.Dump.{dump_lines, dump_shows}
use nctu_unix.Debugger.State.{Sdb}
use nctu_unix.Debugger.Toy.{
  Toy, seen, small, hello, no_regs, running_program, running_program-IsValid, writable,
  small-IsPtrace, small-IsHost,
}

-- `break` at 0x401010.
bp_arms_example :
    (w : Toy) × (bp 0x401010 running_program
      ≡ done tt (record running_program {
        world = w;
        bp_list = with_breakpoint [] 0x401010 (load64 (seen running_program.world) 0x401010);
      }))
    × ((b : ℕ) → seen w b ≡ update (seen running_program.world) 0x401010 0xcc b)
unfolding intext small-IsPtrace
bp_arms_example =
    bp_arms small-IsPtrace 0x401010 running_program writable refl refl
      (λ e. absurd (omega (arith, e)))

bp-del_example :
    (w : Toy) × ((bp 0x401010 >> del (pos 0)) running_program
      ≡ done tt (record running_program {
        world = w;
        output = (lit "** breakpoint " ∷ dec (pos 0) ∷ lit " deleted." ∷ []) ∷ [];
      }))
    × ((b : ℕ) → seen w b ≡ seen running_program.world b)
unfolding intext has_addr small-IsPtrace
bp-del_example =
    bp-del small-IsPtrace 0x401010 running_program writable running_program-IsValid refl refl
      (λ e. absurd (omega (arith, e))) refl

-- A program among the arguments, and a session: start, a breakpoint, go on, and two commands that
-- are refused.
main-IsValid_example : Keeps (
    main
      (codes "hello" ∷ [])
      (codes "start" ∷ codes "b 401010" ∷ codes "cont" ∷ codes "delete 3" ∷ codes "load again" ∷ [])
      (initial small running_program.world))
main-IsValid_example = main-IsValid small small-IsHost running_program.world (codes "hello" ∷ []) _

main_ends_example :
    main (codes "-s" ∷ codes "script" ∷ codes "hello" ∷ []) [] (initial small running_program.world)
    ≢ done tt running_program
main_ends_example =
    main_ends small (initial small running_program.world) running_program
      (codes "-s" ∷ codes "script" ∷ codes "hello" ∷ []) [] (inl refl)

-- The program stops behind a breakpoint at 0x401010.
abbrev stop : Breakpoint
stop = record { id = 0; addr = 0x401010; orig_code = 0x90 }

abbrev stop_below : Breakpoint
stop_below = record { id = 1; addr = 0x40100f; orig_code = 0x90 }

abbrev behind_stop : Regs
behind_stop = record no_regs { rip = 0x401011 }

hit_restores_example :
    (s : Sdb small) × (hit_passed (stop ∷ []) behind_stop running_program ≡ done tt s)
    × (small.get_regs s.pid s.world ≡ some (record behind_stop { rip = 0x401010 }))
    × ((c : ℕ) → seen s.world c ≡ store64 (seen running_program.world) 0x401010 0x90 c)
unfolding small-IsPtrace has_addr
hit_restores_example =
    hit_restores small small-IsPtrace (λ path w. (hello, refl))
      (λ code offset addr size. (_, refl, refl)) (λ p a v w. (_, refl)) (λ p regs w. (_, refl)) []
      stop [] behind_stop running_program refl refl refl

dump_shows_example :
    dump 0x401000 running_program
    ≡ done tt
        (record running_program { output = dump_lines (seen running_program.world) 5 0x401000 [] })
unfolding small-IsPtrace intext
dump_shows_example =
    dump_shows small-IsPtrace 0x401000 running_program (λ e. absurd (omega (arith, e))) refl refl

abbrev stopped_program : Sdb small
stopped_program = record running_program { bp_list = stop ∷ [] }

-- The program before it is started.
abbrev loaded_program : Sdb small
loaded_program = record running_program { phase = loaded; pid = 0 }

abbrev started_program : Sdb small
started_program = record running_program { output = (lit "** pid " ∷ dec (pos 7) ∷ []) ∷ [] }

start_comes_back : execute (codes "start") [] [] loaded_program ≡ done tt started_program
unfolding execute start launch await
start_comes_back = refl

execute-Step_example : Step (codes "start") loaded running
execute-Step_example =
    execute-Step small (codes "start") [] [] loaded_program started_program start_comes_back
