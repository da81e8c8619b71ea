-- ===== src/Logger/Launcher.antt =====
-- hw2/hw2.cpp: the program that runs a command with logger.so in front of the C library.
pub mod Variables
pub mod Run
mod Tests
use nctu_unix.Base.{
  ℕ, zero, suc, ◌+◌, ◌-◌, Bool, true, false, ◌==◌, if◌then◌else◌, List, [], ◌∷◌, ◌++◌, Option, none,
  some, length, get_elem?, codes, eq_text, ℤ, pos, negsuc,
}
use nctu_unix.Base.Numbers.{decimal}
use nctu_unix.Logger.Launcher.Variables.{Text, Environment, setenv}

-- What `getopt` answers, with `optarg`; `?` is an option that it does not know, or that lacks its
-- argument.
pub data Opt : Type 0 where
  opt_o opt_p : Text → Opt
  opt_unknown : Opt

-- `none` prints the usage.
unfoldable pub options_loop : List Opt → Environment → Option Environment
options_loop [] env = some env
options_loop (opt_o optarg ∷ opts) env =
    options_loop opts (setenv (codes "LOGGER_OUTPUT") optarg env)
options_loop (opt_p optarg ∷ opts) env = options_loop opts (setenv (codes "LD_PRELOAD") optarg env)
options_loop (opt_unknown ∷ opts) env = none

abbrev pub separator : Text
separator = codes "--"

-- `cmdIndex`; the list is `argv` from `i` on.
unfoldable pub cmd_index : List Text → ℕ → ℕ
cmd_index [] i = 1
cmd_index (arg ∷ argv) i =
    let rest = cmd_index argv (i + 1) in if eq_text arg separator then i + 1 else rest

-- `n` rounds of the loop that fills `cmd`.
unfoldable pub copied : ℕ → List Text → ℕ → List Text
copied zero argv i = []
copied (suc n) argv i =
    let rest = copied n argv (i + 1) in
    elim (get_elem? argv i) [ none ↦ [] | some arg ↦ arg ∷ rest ]

-- "%d".
abbrev pub printed : ℤ → Text
printed (pos n) = decimal n
printed (negsuc n) = codes "-" ++ decimal (suc n)

-- Where a process comes to: the usage or "no command given." is printed, `execvp` is called, or
-- the parent has waited for the child.
pub data Outcome : Type 0 where
  usage no_command : Outcome
  executed : List Text → Environment → Outcome
  waited : Outcome

-- `child` is an answer 0 of `fork`.
pub data Fork : Type 0 where
  child parent : Fork

abbrev pub forked : Fork → List Text → ℤ → Environment → Outcome
forked parent cmd fd env = waited
forked child cmd fd env = executed cmd (setenv (codes "LOGGER_STDERR") (printed fd) env)

abbrev pub run : Fork → List Text → ℕ → ℤ → Environment → Outcome
run fork argv index fd env =
    if index == length argv
    then no_command
    else forked fork (copied (length argv - index) argv index) fd env

abbrev pub with_options : Option Environment → (Environment → Outcome) → Outcome
with_options none next = usage
with_options (some env) next = next env

-- `getopt` gives its answers, one call after the other, and the order in which it leaves `argv`
-- behind the program's name; `fd` is what `dup(2)` gives.
unfoldable pub main :
    (List Text → List Opt × List Text) → Fork → ℤ → Text → List Text → Environment → Outcome
main getopt fork fd name args env =
    let (opts, argv) = getopt args in
    with_options (options_loop opts (setenv (codes "LD_PRELOAD") (codes "./logger.so") env))
      (run fork (name ∷ argv) (cmd_index argv 1) fd)
