-- ===== src/Libmini/Tests.antt =====
-- Runs of the library of hw3/libmini.c on concrete machines, and its theorems at them.
use nctu_unix.Base.{ℕ, ◌<◌, ◌≡◌, refl, ◌↔◌, arith, inr}
use nctu_unix.Base.{◌==◌, ◌&&◌, if◌then◌else◌, [], some}
use nctu_unix.Base.{pos, negsuc, leb, ltb}
use nctu_unix.Base.Memory.{Memory, IsBytes}
use nctu_unix.Libmini.Machine.{Kernel, Machine, sys_chdir, sys_alarm}
use nctu_unix.Libmini.Wrappers.Reply.{wrapper, prototype, wrapper_fails, wrapper_succeeds, called}
use nctu_unix.Libmini.Strings.{memset, strlen}
use nctu_unix.Libmini.Strings.Fill.{memset_fills}
use nctu_unix.Libmini.Strings.Length.{IsFirstNul, strlen_iff}
use nctu_unix.Libmini.Sigset.{sigemptyset, sigfillset, sigaddset, sigdelset, sigismember}
use nctu_unix.Libmini.Sigset.Laws.{
  sigismember-sigaddset, sigismember-sigdelset, sigismember_of_made,
}
use nctu_unix.Libmini.Sigset.Errors.{IsSignal, sigset_refuses, sigset_frame, refused}
use nctu_unix.Libmini.Signal.{signal}
use nctu_unix.Libmini.Signal.Install.{prepared, concluded, Asks, signal_installs}

-- A kernel that answers every call with -2, and one that answers it with 3.
abbrev refusing : Kernel
refusing h c m = (negsuc 1, m)

abbrev accepting : Kernel
accepting h c m = (pos 3, m)

abbrev blank : Machine
blank = record { memory = λ _. 0; errno = pos 7; calls = [] }

wrapper_fails_example :
    wrapper refusing (sys_chdir 64) blank ≡ (negsuc 0, called refusing (sys_chdir 64) blank (pos 2))
unfolding prototype
wrapper_fails_example = wrapper_fails refusing blank (sys_chdir 64) 1 tt refl

wrapper_succeeds_example :
    wrapper accepting (sys_alarm 5) blank ≡ (pos 3, called accepting (sys_alarm 5) blank (pos 0))
unfolding prototype
wrapper_succeeds_example = wrapper_succeeds accepting blank (sys_alarm 5) 3 tt refl (omega arith)

memset_fills_example :
    ((memset 16 (negsuc 0) (pos 4) blank).0 ≡ 16)
    × ((b : ℕ)
        → (memset 16 (negsuc 0) (pos 4) blank).1.memory b
          ≡ (if leb 16 b && ltb b 20 then 255 else 0))
    × ((memset 16 (negsuc 0) (pos 4) blank).1.errno ≡ pos 7)
    × ((memset 16 (negsuc 0) (pos 4) blank).1.calls ≡ [])
memset_fills_example = memset_fills 16 (negsuc 0) (pos 4) blank

-- Two letters at 32.
abbrev two_letters : Memory
two_letters a = if a == 32 then b'h' else if a == 33 then b'i' else 0

strlen_iff_example : (strlen 5 two_letters 32 ≡ some 2) ↔ ((2 < 5) × IsFirstNul two_letters 32 2)
strlen_iff_example = strlen_iff 5 two_letters 32 2

blank-IsBytes : IsBytes blank.memory
blank-IsBytes a = omega arith

sigismember-sigaddset_example : (sigismember 64 (pos 14) (sigaddset 64 (pos 14) blank).1).0 ≡ pos 1
sigismember-sigaddset_example =
    sigismember-sigaddset 64 (pos 14) (pos 14) blank blank-IsBytes refl refl

sigismember-sigdelset_example : (sigismember 64 (pos 14) (sigdelset 64 (pos 14) blank).1).0 ≡ pos 0
sigismember-sigdelset_example =
    sigismember-sigdelset 64 (pos 14) (pos 14) blank blank-IsBytes refl refl

sigismember_of_made_example :
    ((sigismember 64 (pos 9) (sigemptyset 64 blank).1).0 ≡ pos 0)
    × ((sigismember 64 (pos 9) (sigfillset 64 blank).1).0 ≡ pos 1)
sigismember_of_made_example = sigismember_of_made 64 (pos 9) blank refl

no-IsSignal : ¬ IsSignal (pos 65)
no-IsSignal (low, high) = absurd (omega (arith, high))

sigset_refuses_example :
    (sigaddset 64 (pos 65) blank ≡ refused blank)
    × (sigdelset 64 (pos 65) blank ≡ refused blank)
    × (sigismember 64 (pos 65) blank ≡ refused blank)
    × (sigemptyset 0 blank ≡ refused blank)
    × (sigfillset 0 blank ≡ refused blank)
sigset_refuses_example = sigset_refuses 64 (pos 65) blank (inr no-IsSignal)

sigset_frame_example :
    ((sigaddset 64 (pos 2) blank).0 ≡ pos 0)
    × ((sigaddset 64 (pos 2) blank).1.errno ≡ pos 7)
    × ((sigaddset 64 (pos 2) blank).1.memory 72 ≡ 0)
    × ((sigdelset 64 (pos 2) blank).0 ≡ pos 0)
    × ((sigdelset 64 (pos 2) blank).1.errno ≡ pos 7)
    × ((sigdelset 64 (pos 2) blank).1.memory 72 ≡ 0)
    × ((sigismember 64 (pos 2) blank).1 ≡ blank)
sigset_frame_example = sigset_frame 64 (pos 2) blank 72 refl (inr (omega arith))

signal_installs_example :
    Asks (prepared refusing 4096 512 1024 (pos 14) 8192 blank) 512 (pos 14) 8192 4096
    × (prepared refusing 4096 512 1024 (pos 14) 8192 blank 600 ≡ 0)
    × (signal refusing 4096 512 1024 (pos 14) 8192 blank
        ≡ concluded refusing 4096 512 1024
            (pos 14)
            8192
            blank
            (negsuc 1, prepared refusing 4096 512 1024 (pos 14) 8192 blank))
signal_installs_example =
    signal_installs refusing 4096 512 1024 (pos 14) 8192 blank 600 refl (omega arith) (omega arith)
      (λ n e. absurd (ground arith)) (inr (omega arith))
