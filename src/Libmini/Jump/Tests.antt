-- ===== src/Libmini/Jump/Tests.antt =====
-- setjmp, longjmp and sleep of hw3/libmini64.asm on a small machine.
use nctu_unix.Base.{ℕ, ◌≡◌, refl, inl, ◌==◌, if◌then◌else◌, List, [], ◌∷◌, pos, negsuc, arith}
use nctu_unix.Base.Memory.{Memory, IsBytes, load64, store64, store64-IsBytes, store64_outside}
use nctu_unix.Libmini.Machine.{Kernel, Machine, sys_rt_sigprocmask, sys_nanosleep}
use nctu_unix.Libmini.Jump.{
  Cpu, slot, registers, put_slots, setjmp, longjmp, sleep, mask_asked, mask_set, registers_saved,
}
use nctu_unix.Libmini.Jump.Back.{IsCall, IsAnswered, longjmp-setjmp}
use nctu_unix.Libmini.Jump.Asleep.{asked, Slept, sleep_lem}

-- A kernel whose mask of blocked signals is 5, and that cuts every sleep short.
abbrev answering : Kernel
answering h (sys_rt_sigprocmask how set oset size) m =
    if oset == 0 then (pos 0, m) else (pos 0, store64 m oset 5)
answering h (sys_nanosleep req rem) m = (negsuc 3, store64 m rem 2)
answering h c m = (pos 0, m)

abbrev blank : Machine
blank = record { memory = λ a. 0; errno = pos 7; calls = [] }

abbrev caller : Cpu
caller = record {
  rax = 0;
  rbx = 1;
  rsp = 4096;
  rbp = 2;
  r12 = 3;
  r13 = 4;
  r14 = 5;
  r15 = 6;
  rip = 100;
  machine = blank;
}

caller-IsCall : IsCall 64 caller
caller-IsCall = record {
  rbx = omega arith;
  rsp = omega arith;
  rbp = omega arith;
  r12 = omega arith;
  r13 = omega arith;
  r14 = omega arith;
  r15 = omega arith;
  bytes = λ a. omega arith;
  deep = omega arith;
  apart = inl (omega arith);
}

put_slots-IsBytes :
    (env : ℕ) (slots : List (ℕ × ℕ)) (m : Memory) → IsBytes m → IsBytes (put_slots env slots m)
put_slots-IsBytes env [] m h = h
put_slots-IsBytes env ((i, v) ∷ slots) m h =
    put_slots-IsBytes env slots (store64 m (slot env i) v) (store64-IsBytes m (slot env i) v h)

saved-IsBytes : IsBytes (registers_saved answering 64 caller)
saved-IsBytes =
    store64-IsBytes _ (slot 64 7) _
      (put_slots-IsBytes 64 (registers caller) blank.memory (λ a. omega arith))

answering-IsAnswered : IsAnswered answering 64 caller
answering-IsAnswered = record {
  bytes = store64-IsBytes _ 4056 5 saved-IsBytes;
  others = λ b h. store64_outside _ 4056 5 b h;
}

-- A state deep in other functions.
abbrev elsewhere : Cpu
elsewhere = record caller {
  rbx = 40;
  rsp = 2048;
  r12 = 41;
  rip = 200;
  machine = (setjmp answering 64 caller).machine;
}

longjmp-setjmp_example :
    (longjmp answering 64 0 elsewhere
      ≡ record (setjmp answering 64 caller) { rax = 1; machine = mask_set answering 64 elsewhere })
    × (load64 elsewhere.machine.memory (slot 64 8)
        ≡ load64 (mask_asked answering 64 caller).memory 4056)
longjmp-setjmp_example =
    longjmp-setjmp answering 64 0 caller elsewhere caller-IsCall answering-IsAnswered
      (λ b p q. refl) (λ b. refl)

sleep_lem_example :
    (load64 (asked answering 4096 9 blank).memory 4096 ≡ 9)
    × (load64 (asked answering 4096 9 blank).memory 4104 ≡ 0)
    × ((sleep answering 4096 9 blank).1.calls
        ≡ record { call = sys_nanosleep 4096 4112; seen = (asked answering 4096 9 blank).memory }
          ∷ [])
    × ((sleep answering 4096 9 blank).1.errno ≡ pos 7)
    × Slept answering 4096 9 blank (negsuc 3) (sleep answering 4096 9 blank).0
sleep_lem_example = sleep_lem answering 4096 9 blank (omega arith)
