-- ===== src/Debugger/Control.antt =====
-- `chkbp`, `cont`, `si`, `start` and `run` of hw4/hw4.cpp: how sdb lets the program run.
pub mod Valid
pub mod Hit
pub mod Status
use Prim.Native.String.{String}
use nctu_unix.Base.{
  ℕ, zero, suc, ◌+◌, ◌-◌, ◌/◌, ◌%◌, ◌^◌, Bool, true, false, not, ◌==◌, ltb, if◌then◌else◌, List, [],
  ◌∷◌, Option, none, some, ℤ, pos,
}
use nctu_unix.Debugger.State.{
  Kernel, Sdb, M, done, pure, ◌>>=◌, ◌>>◌, get, put, say, or_error, await, set_world, get_registers,
  set_registers, Breakpoint, Regs, Mode, continue, single_step, Phase, nonload, loaded, running,
  is_running, lit, txt, dec,
}
use nctu_unix.Debugger.Breakpoints.{bp, poke_text}
use nctu_unix.Debugger.Inspect.{disasm}

-- The macros of <sys/wait.h> on a status.
abbrev pub wifexited : ℕ → Bool
wifexited status = status % 128 == 0

abbrev pub wifstopped : ℕ → Bool
wifstopped status = status % 256 == 127

abbrev pub wstopsig : ℕ → ℕ
wstopsig status = status / 256 % 256

abbrev pub sigtrap : ℕ
sigtrap = 5

-- `regs.rip - 1`, on an unsigned word.
abbrev pub before : ℕ → ℕ
before rip = (rip + 2 ^ 64 - 1) % 2 ^ 64

module _ {k : Kernel} where
  -- The loop over `bp_list`.
  unfoldable pub arm_after : ℕ → List Breakpoint → M k (Unit {0})
  arm_after rip [] = pure tt
  arm_after rip (b ∷ bs) = (if ltb rip b.addr then bp b.addr else pure tt) >> arm_after rip bs

  unfoldable pub chkbp : M k (Unit {0})
  chkbp = do regs ← get_registers; s ← get; arm_after regs.rip s.bp_list

  -- PTRACE_CONT or PTRACE_SINGLESTEP, then `waitpid`.
  unfoldable pub resume : String → Mode → M k ℕ
  resume func mode = do
    s ← get
    w ← or_error func (k.resume mode s.pid s.world)
    set_world w
    (status, w') ← await s.pid w
    set_world w'
    pure status

  -- A status with WIFEXITED is never one with WIFSIGNALED, which the code tests next.
  unfoldable pub report_exit : ℕ → M k (Unit {0})
  report_exit status =
      if wifexited status
      then (do
        s ← get
        say (
            lit "** child process "
            ∷ dec (pos s.pid)
            ∷ lit " terminiated normally (code "
            ∷ dec (pos status)
            ∷ lit ")"
            ∷ [])
        s' ← get
        put (record s' { pid = 0; phase = loaded }))
      else pure tt

  unfoldable pub show_hit : Breakpoint → M k (Unit {0})
  show_hit b = do
    say (lit "** breakpoint @ " ∷ [])
    disasm b.addr 1
    poke_text "ptrace(PTRACE_POKETEXT)" b.addr b.orig_code

  -- After PTRACE_CONT: `rip` is one past the breakpoint instruction, and goes back by one.
  unfoldable pub hit_passed : List Breakpoint → Regs → M k (Unit {0})
  hit_passed [] regs = pure tt
  hit_passed (b ∷ bs) regs =
      if b.addr == before regs.rip
      then (do
        show_hit b
        set_registers (record regs { rip = before regs.rip })
        hit_passed bs (record regs { rip = before regs.rip }))
      else hit_passed bs regs

  -- After PTRACE_SINGLESTEP: `rip` is at the breakpoint instruction.
  unfoldable pub hit_reached : List Breakpoint → Regs → M k (Unit {0})
  hit_reached [] regs = pure tt
  hit_reached (b ∷ bs) regs =
      (if b.addr == regs.rip then show_hit b else pure tt) >> hit_reached bs regs

  unfoldable pub report_stop : (List Breakpoint → Regs → M k (Unit {0})) → ℕ → M k (Unit {0})
  report_stop hit status =
      if not (wifstopped status)
      then pure tt
      else if wstopsig status == sigtrap
      then (do regs ← get_registers; s ← get; hit s.bp_list regs)
      else (do
        s ← get
        say (
            lit "** child process "
            ∷ dec (pos s.pid)
            ∷ lit " terminiated by signal (code"
            ∷ dec (pos (wstopsig status))
            ∷ lit ")"
            ∷ []))

  -- A second version of what follows PTRACE_CONT, which nothing calls.
  unfoldable pub chkstat : M k (Unit {0})
  chkstat = do
    s ← get
    (status, w) ← await s.pid s.world
    set_world w
    report_exit status
    report_stop hit_passed status

  unfoldable pub if_running : M k (Unit {0}) → M k (Unit {0})
  if_running f = do
    s ← get
    if not (is_running s.phase) then say (lit "** state must be RUNNING" ∷ []) else f

  unfoldable pub cont : M k (Unit {0})
  cont = if_running (do
    chkbp
    status ← resume "ptrace(PTRACE_CONT)" continue
    report_exit status
    report_stop hit_passed status)

  unfoldable pub si : M k (Unit {0})
  si = if_running (do
    chkbp
    status ← resume "ptrace(PTRACE_SINGLESTEP)" single_step
    report_exit status
    report_stop hit_reached status)

  -- The status of the first wait is not looked at.
  unfoldable pub launch : M k (Unit {0})
  launch = do
    s ← get
    (p, w) ← or_error "fork" (k.spawn s.file_path s.world)
    (status, w') ← await p w
    w'' ← or_error "ptrace(PTRACE_SETOPTIONS)" (k.set_options p w')
    put (record s { pid = p; world = w'' })
    say (lit "** pid " ∷ dec (pos p) ∷ [])
    s' ← get
    put (record s' { phase = running })

  unfoldable pub start : M k (Unit {0})
  start = do
    s ← get
    elim s.phase [
      | loaded ↦
          if s.pid == 0
          then launch
          else say (lit "** program " ∷ txt s.file_path ∷ lit " is already running" ∷ [])
      | nonload ↦ say (lit "** state must be LOADED" ∷ [])
      | running ↦ say (lit "** state must be LOADED" ∷ [])
    ]

  unfoldable pub run : M k (Unit {0})
  run = do
    s ← get
    elim s.phase [
      | running ↦ cont
      | loaded ↦ start >> cont
      | nonload ↦ say (lit "** state must be RUNNING or LOADED" ∷ [])
    ]
