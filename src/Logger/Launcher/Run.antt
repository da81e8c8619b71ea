-- ===== src/Logger/Launcher/Run.antt =====
-- What hw2/hw2.cpp runs, and with which environment.
use mathlib.Core.List.{append_assoc}
use nctu_unix.Base.{
  ℕ, suc, ◌+◌, ◌-◌, ◌≡◌, refl, ap, sym, ◌∙◌, ◌⊎◌, inl, inr, ◌==◌, if◌then◌else◌, List, [], ◌∷◌,
  ◌++◌, Option, none, some, length, length-append, get_elem?, codes, eq_text, ℤ, pos, negsuc, arith,
  Bool-cases,
}
use nctu_unix.Base.Numbers.{atoi}
use nctu_unix.Base.Numbers.Decimal.{atoi-decimal, atoi_minus}
use nctu_unix.Logger.Launcher.Variables.{
  Text, Environment, setenv, getenv, getenv-setenv, getenv-setenv_other,
}
use nctu_unix.Logger.Launcher.{
  Opt, opt_o, opt_p, opt_unknown, options_loop, separator, cmd_index, copied, printed, Outcome,
  no_command, executed, waited, Fork, child, parent, forked, run, main,
}

-- What stands behind the first "--"; without one, all arguments.
abbrev pub behind : List Text → Option (List Text)
behind [] = none
behind (arg ∷ argv) = let rest = behind argv in if eq_text arg separator then some argv else rest

abbrev pub command_or : List Text → Option (List Text) → List Text
command_or argv none = argv
command_or argv (some cmd) = cmd

abbrev pub command : List Text → List Text
command argv = command_or argv (behind argv)

-- No option is unknown.
abbrev pub AllKnown : List Opt → Type 0
AllKnown [] = Unit
AllKnown (opt_o optarg ∷ opts) = AllKnown opts
AllKnown (opt_p optarg ∷ opts) = AllKnown opts
AllKnown (opt_unknown ∷ opts) = ⊥

-- The argument of the last -o, and of the last -p.
abbrev pub last_o : List Opt → Option Text → Option Text
last_o [] old = old
last_o (opt_o optarg ∷ opts) old = last_o opts (some optarg)
last_o (opt_p optarg ∷ opts) old = last_o opts old
last_o (opt_unknown ∷ opts) old = last_o opts old

abbrev pub last_p : List Opt → Option Text → Option Text
last_p [] old = old
last_p (opt_o optarg ∷ opts) old = last_p opts old
last_p (opt_p optarg ∷ opts) old = last_p opts (some optarg)
last_p (opt_unknown ∷ opts) old = last_p opts old

element_at :
    (front : List Text) (arg : Text) (argv : List Text)
    → get_elem? (front ++ (arg ∷ argv)) (length front) ≡ some arg
element_at [] arg argv = refl
element_at (x ∷ front) arg argv = element_at front arg argv

-- The loop copies what stands behind `front`.
copied_lem : (argv front : List Text) → copied (length argv) (front ++ argv) (length front) ≡ argv
unfolding copied
copied_lem [] front = refl
copied_lem (arg ∷ argv) front =
    rw (copied, element_at front arg argv)
      (ap (λ (cs : List Text). arg ∷ cs)
        (ap (λ (all : List Text). copied (length argv) all (length front + 1))
            (sym (append_assoc front (arg ∷ []) argv))
          ∙ ap (copied (length argv) ((front ++ (arg ∷ [])) ++ argv))
              (omega (arith, length-append front (arg ∷ [])))
          ∙ copied_lem argv (front ++ (arg ∷ []))))

options_known :
    (opts : List Opt) (env : Environment)
    → AllKnown opts
    → (env' : Environment) × (options_loop opts env ≡ some env')
      × (getenv (codes "LOGGER_OUTPUT") env' ≡ last_o opts (getenv (codes "LOGGER_OUTPUT") env))
      × (getenv (codes "LD_PRELOAD") env' ≡ last_p opts (getenv (codes "LD_PRELOAD") env))
unfolding options_loop
options_known [] env h = (env, refl, refl, refl)
options_known (opt_o optarg ∷ opts) env h =
    let (env', e, f, g) = options_known opts (setenv (codes "LOGGER_OUTPUT") optarg env) h in
    (
      env',
      e,
      f ∙ ap (last_o opts) (getenv-setenv (codes "LOGGER_OUTPUT") optarg env),
      g
          ∙ ap (last_p opts)
              (getenv-setenv_other (codes "LD_PRELOAD") (codes "LOGGER_OUTPUT") optarg env refl),
    )
options_known (opt_p optarg ∷ opts) env h =
    let (env', e, f, g) = options_known opts (setenv (codes "LD_PRELOAD") optarg env) h in
    (
      env',
      e,
      f
          ∙ ap (last_o opts)
              (getenv-setenv_other (codes "LOGGER_OUTPUT") (codes "LD_PRELOAD") optarg env refl),
      g ∙ ap (last_p opts) (getenv-setenv (codes "LD_PRELOAD") optarg env),
    )
options_known (opt_unknown ∷ opts) env h = absurd h

-- `cmdIndex` is where the command begins.
cmd_index_lem :
    (argv : List Text) (i : ℕ)
    → ((behind argv ≡ none) × (cmd_index argv i ≡ 1))
      ⊎ ((front cmd : List Text) × (behind argv ≡ some cmd)
          × (argv ≡ front ++ cmd)
          × (cmd_index argv i ≡ i + length front))
unfolding cmd_index
cmd_index_lem [] i = inl (refl, refl)
cmd_index_lem (arg ∷ argv) i = elim (Bool-cases (eq_text arg separator)) [
  | inl e ↦ inr (arg ∷ [], argv, rw e refl, refl, rw (cmd_index, e) refl)
  | inr e ↦ elim (cmd_index_lem argv (i + 1)) [
    | inl (n, f) ↦ inl (rw e n, rw (cmd_index, e) f)
    | inr (front, cmd, n, same, f) ↦ inr (
      arg ∷ front,
      cmd,
      rw e n,
      ap (λ (rest : List Text). arg ∷ rest) same,
      rw (cmd_index, e) (f ∙ omega arith),
    )
  ]
]

printed_lem : (fd : ℤ) → atoi (printed fd) ≡ fd
printed_lem (pos n) = atoi-decimal n
printed_lem (negsuc n) = atoi_minus (suc n)

-- How a command is started by the child, and waited for by the parent.
abbrev pub launched : Fork → List Text → Environment → Outcome
launched fork [] env = no_command
launched child (c ∷ cmd) env = executed (c ∷ cmd) env
launched parent (c ∷ cmd) env = waited

abbrev with_stderr : ℤ → Environment → Environment
with_stderr fd env = setenv (codes "LOGGER_STDERR") (printed fd) env

forked_lem :
    (fork : Fork) (c : Text) (cmd : List Text) (fd : ℤ) (env : Environment)
    → forked fork (c ∷ cmd) fd env ≡ launched fork (c ∷ cmd) (with_stderr fd env)
forked_lem child c cmd fd env = refl
forked_lem parent c cmd fd env = refl

run_lem :
    (fork : Fork) (front cmd : List Text) (index : ℕ) (fd : ℤ) (env : Environment)
    → index ≡ length front
    → run fork (front ++ cmd) index fd env ≡ launched fork cmd (with_stderr fd env)
run_lem fork front [] index fd env e = elim (Bool-cases (index == length (front ++ []))) [
  | inl y ↦ rw y refl
  | inr n ↦ absurd (ground (arith, n, e, length-append front []))
]
run_lem fork front (c ∷ cmd) index fd env e =
    elim (Bool-cases (index == length (front ++ (c ∷ cmd)))) [
      | inl y ↦ absurd (ground (arith, y, e, length-append front (c ∷ cmd)))
      | inr n ↦
          let rounds : length (front ++ (c ∷ cmd)) - index ≡ length (c ∷ cmd) =
            omega (arith, e, length-append front (c ∷ cmd)) in
          rw (n, rounds, e)
            (ap (λ (all : List Text). forked fork all fd env) (copied_lem (c ∷ cmd) front)
              ∙ forked_lem fork c cmd fd env)
    ]

started_at :
    (fork : Fork) (name : Text) (argv : List Text) (fd : ℤ) (env : Environment)
    → run fork (name ∷ argv) (cmd_index argv 1) fd env
      ≡ launched fork (command argv) (with_stderr fd env)
started_at fork name argv fd env = elim (cmd_index_lem argv 1) [
  | inl (n, e) ↦ rw n (run_lem fork (name ∷ []) argv (cmd_index argv 1) fd env e)
  | inr (front, cmd, n, same, e) ↦ rw n (
      ap (λ (all : List Text). run fork (name ∷ all) (cmd_index argv 1) fd env) same
      ∙ run_lem fork (name ∷ front) cmd (cmd_index argv 1) fd env (omega (arith, e)))
]

-- Where getopt knows all options, the command is what stands behind the first "--" in argv as
-- getopt leaves it, or all of argv without one. Nothing is started if that is empty; else the
-- child executes it and the parent waits. The child has LD_PRELOAD from the last -p or else
-- ./logger.so, LOGGER_OUTPUT from the last -o or else as it was, and in LOGGER_STDERR a text that
-- atoi reads as the duplicate of descriptor 2.
pub main_lem :
    (getopt : List Text → List Opt × List Text) (fork : Fork) (fd : ℤ) (name : Text)
    (args : List Text) (env : Environment) (opts : List Opt) (argv : List Text)
    → getopt args ≡ (opts, argv)
    → AllKnown opts
    → (env' : Environment) × (main getopt fork fd name args env ≡ launched fork (command argv) env')
      × (getenv (codes "LD_PRELOAD") env' ≡ last_p opts (some (codes "./logger.so")))
      × (getenv (codes "LOGGER_OUTPUT") env' ≡ last_o opts (getenv (codes "LOGGER_OUTPUT") env))
      × (text : Text) × (getenv (codes "LOGGER_STDERR") env' ≡ some text)
      × (atoi text ≡ fd)
unfolding main
main_lem getopt fork fd name args env opts argv e h =
    let first = setenv (codes "LD_PRELOAD") (codes "./logger.so") env in
    let (env', f, output, preload) = options_known opts first h in
    let kept =
      getenv-setenv_other (codes "LD_PRELOAD") (codes "LOGGER_STDERR") (printed fd) env' refl in
    (
      with_stderr fd env',
      rw (main, e, f) (started_at fork name argv fd env'),
      kept
          ∙ preload
          ∙ ap (last_p opts) (getenv-setenv (codes "LD_PRELOAD") (codes "./logger.so") env),
      getenv-setenv_other (codes "LOGGER_OUTPUT") (codes "LOGGER_STDERR") (printed fd) env' refl
          ∙ output
          ∙ ap (last_o opts) (
              getenv-setenv_other (codes "LOGGER_OUTPUT") (codes "LD_PRELOAD") (codes "./logger.so")
                env refl),
      printed fd,
      getenv-setenv (codes "LOGGER_STDERR") (printed fd) env',
      printed_lem fd,
    )
