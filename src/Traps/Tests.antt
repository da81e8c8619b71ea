-- ===== src/Traps/Tests.antt =====
-- asm/ptrace/no_more_traps/test.cpp at one stop.
use nctu_unix.Base.{ℕ, ◌≡◌, refl, if◌then◌else◌, ◌==◌, some, codes, arith}
use nctu_unix.Base.Memory.{update}
use nctu_unix.Debugger.Toy.{Toy, seen, small, no_regs, writable, small-IsPtrace}
use nctu_unix.Traps.{Tracer, stopped}
use nctu_unix.Traps.Repair.{Settable, stopped_lem}

settable : Settable small 7
settable regs w = (record w { regs = regs }, refl)

-- The byte at 0x401010 is a breakpoint instruction.
abbrev world : Toy
world = record {
  memory = λ a. if a == 0x401010 then 0xcc else 0x90;
  regs = record no_regs { rip = 0x401011 };
}

abbrev tracer : Tracer small
tracer = record { int_cont = 2; file = codes "5548"; world = world }

stopped_lem_example :
    (w : Toy) × (stopped 7 tracer ≡ some (record { int_cont = 3; file = codes "48"; world = w }))
    × ((b : ℕ) → seen w b ≡ update (seen world) 0x401010 0x55 b)
    × (some w.regs ≡ some (record no_regs { rip = 0x401010 }))
unfolding small-IsPtrace
stopped_lem_example =
    stopped_lem small-IsPtrace 7 writable settable world.regs tracer 5 5 (codes "48") refl refl refl
      (omega arith) (omega arith)
