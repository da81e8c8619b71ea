-- ===== src/Debugger/Phases/Steps.antt =====
-- Which steps between NONLOAD, LOADED and RUNNING a command of sdb takes (hw4/hw4.cpp).
use mathlib.Core.Path.{subst}
use nctu_unix.Base.{
  ◌≡◌, refl, ap, sym, ◌⊎◌, inl, inr, Bool, true, false, ◌||◌, ◌==◌, if◌then◌else◌, codes, eq_text,
  Bool-cases, Option-cases, arith,
}
use nctu_unix.Base.Numbers.{atoi}
use nctu_unix.Debugger.State.{
  Kernel, Sdb, M, Outcome, done, ◌>>=◌, Phase, nonload, loaded, running, is_running, Text,
}
use nctu_unix.Debugger.Control.{cont, si, start, run}
use nctu_unix.Debugger.Load.{load, load_elf, no_text, is_nonload}
use nctu_unix.Debugger.Shell.{execute, quit, either, strtoul}
use nctu_unix.Debugger.Phases.{
  Step, stays, loads, starts, ends, Behind, Behind-map, Stays, say-Stays, pure-Stays,
}
use nctu_unix.Debugger.Phases.Same.{
  bp-Stays, del-Stays, disasm-Stays, dump-Stays, list-Stays, get_reg-Stays, set_reg-Stays,
  getregs-Stays, vmmap-Stays, help-Stays,
}
use nctu_unix.Debugger.Phases.Moves.{
  Ran, Went, cont-Leads, si-Leads, cont-same, si-same, start-Leads, start-same, start_then_cont,
  load_elf-Leads,
}

-- The command takes at most one step.
record Moves {k : Kernel} (cmd : Text) (f : M k (Unit {0})) : Type 0 where
  moves : (s : Sdb k) → Behind (Step cmd s.phase) (f s)

moved : {cmd : Text} (p p' q q' : Phase) → p ≡ p' → q ≡ q' → Step cmd p' q' → Step cmd p q
moved {cmd = cmd} p p' q q' e f h =
    subst (λ x. Step cmd x q) (sym e) (subst (Step cmd p') (sym f) h)

is_nonload_sound : (p : Phase) → is_nonload p ≡ true → p ≡ nonload
is_nonload_sound nonload e = refl
is_nonload_sound loaded e = absurd (ground (arith, e))
is_nonload_sound running e = absurd (ground (arith, e))

is_running_sound : (p : Phase) → is_running p ≡ true → p ≡ running
is_running_sound nonload e = absurd (ground (arith, e))
is_running_sound loaded e = absurd (ground (arith, e))
is_running_sound running e = refl

Phase-cases : (p : Phase) → (p ≡ nonload) ⊎ ((p ≡ loaded) ⊎ (p ≡ running))
Phase-cases nonload = inl refl
Phase-cases loaded = inr (inl refl)
Phase-cases running = inr (inr refl)

module _ (cmd : Text) where
  Ran-Step : Step cmd running loaded → (q : Phase) → Ran q → Step cmd running q
  Ran-Step h q (inl r) = moved running running q running refl r stays
  Ran-Step h q (inr r) = moved running running q loaded refl r h

  Went-Step : Step cmd loaded running → (q : Phase) → Went q → Step cmd loaded q
  Went-Step h q (inl r) = moved loaded loaded q loaded refl r stays
  Went-Step h q (inr r) = moved loaded loaded q running refl r h

  loaded-Step :
      eq_text cmd (codes "load") ≡ true
      → (q : Phase) → (q ≡ nonload) ⊎ (q ≡ loaded)
      → Step cmd nonload q
  loaded-Step h q (inl r) = moved nonload nonload q nonload refl r stays
  loaded-Step h q (inr r) = moved nonload nonload q loaded refl r (loads h)

module _ {k : Kernel} (cmd : Text) where
  stayed :
      (s : Sdb k) (o : Outcome k (Unit {0}))
      → Behind (λ q. q ≡ s.phase) o
      → Behind (Step cmd s.phase) o
  stayed s o h =
      Behind-map (λ q. q ≡ s.phase) (Step cmd s.phase) o
        (λ q e. moved s.phase s.phase q s.phase refl e stays) h

  Stays-Moves : {f : M k (Unit {0})} → Stays f → Moves cmd f
  Stays-Moves {f = f} h = record { moves = λ s. stayed s (f s) (h.remains s) }

  by_test :
      (b : Bool) {f g : M k (Unit {0})}
      → (b ≡ true → Moves cmd f)
      → Moves cmd g
      → Moves cmd (if b then f else g)
  by_test true h p = h refl
  by_test false h p = p

  -- From a state that is known.
  from :
      (s : Sdb k) (o : Outcome k (Unit {0})) (p : Phase) (P : Phase → Type 0)
      → s.phase ≡ p
      → ((q : Phase) → P q → Step cmd p q)
      → Behind P o
      → Behind (Step cmd s.phase) o
  from s o p P e f b =
      Behind-map P (Step cmd s.phase) o (λ q r. moved s.phase p q q e refl (f q r)) b

  load-Moves : (arg : Text) → eq_text cmd (codes "load") ≡ true → Moves {k = k} cmd (load arg)
  unfolding load
  load-Moves arg h = record {
    moves = λ s. elim (Bool-cases (is_nonload s.phase)) [
      | inr n ↦ rw n stays
      | inl y ↦ elim (Bool-cases (no_text arg)) [
        | inl a ↦ rw (y, a) stays
        | inr a ↦ elim (Option-cases (k.file arg s.world)) [
          | inl f ↦ rw (y, a, ◌>>=◌, f) tt
          | inr (file, f) ↦
              rw (y, a, ◌>>=◌, f)
                (from s (load_elf arg file s) nonload (λ q. (q ≡ nonload) ⊎ (q ≡ loaded))
                  (is_nonload_sound s.phase y) (loaded-Step cmd h)
                  ((load_elf-Leads arg file).leads s (is_nonload_sound s.phase y)))
        ]
      ]
    ];
  }

  cont-Moves : Step cmd running loaded → Moves {k = k} cmd cont
  cont-Moves h = record {
    moves = λ s. elim (Bool-cases (is_running s.phase)) [
      | inl y ↦
          from s (cont s) running Ran (is_running_sound s.phase y) (Ran-Step cmd h)
            (cont-Leads.leads s (is_running_sound s.phase y))
      | inr n ↦ stayed s (cont s) (cont-same s n)
    ];
  }

  si-Moves : Step cmd running loaded → Moves {k = k} cmd si
  si-Moves h = record {
    moves = λ s. elim (Bool-cases (is_running s.phase)) [
      | inl y ↦
          from s (si s) running Ran (is_running_sound s.phase y) (Ran-Step cmd h)
            (si-Leads.leads s (is_running_sound s.phase y))
      | inr n ↦ stayed s (si s) (si-same s n)
    ];
  }

  start-Moves : Step cmd loaded running → Moves {k = k} cmd start
  start-Moves h = record {
    moves = λ s. elim (Phase-cases s.phase) [
      | inl e ↦
          stayed s (start s)
            (start-same s nonload (λ d. absurd (ground (arith, ap is_nonload d))) e)
      | inr (inl e) ↦ from s (start s) loaded Went e (Went-Step cmd h) (start-Leads.leads s e)
      | inr (inr e) ↦
          stayed s (start s)
            (start-same s running (λ d. absurd (ground (arith, ap is_running d))) e)
    ];
  }

  run-Moves : Step cmd loaded running → Step cmd running loaded → Moves {k = k} cmd run
  unfolding run
  run-Moves h h' = record {
    moves = λ s. elim (Phase-cases s.phase) [
      | inl e ↦ simp (run, e) stays
      | inr (inl e) ↦
          simp (run, e)
            (Behind-map Went (Step cmd loaded) _ (Went-Step cmd h) (start_then_cont.leads s e))
      | inr (inr e) ↦
          simp (run, e)
            (Behind-map Ran (Step cmd running) (cont s) (Ran-Step cmd h') (cont-Leads.leads s e))
    ];
  }

  quit-Moves : Moves {k = k} cmd quit
  unfolding quit
  quit-Moves = record {
    moves = λ s. elim (Bool-cases (s.pid == 0)) [ inl e ↦ rw e tt | inr e ↦ rw e tt ];
  }

  execute-Moves : (arg1 arg2 : Text) → Moves {k = k} cmd (execute cmd arg1 arg2)
  unfolding execute
  execute-Moves arg1 arg2 =
      by_test (either cmd "break" "b")
        (λ e.
          by_test (no_text arg1) (λ a. Stays-Moves (say-Stays _))
            (Stays-Moves (bp-Stays (strtoul arg1))))
        (by_test (either cmd "cont" "c") (λ e. cont-Moves (ends (inl e)))
          (by_test (eq_text cmd (codes "delete"))
            (λ e.
              by_test (no_text arg1) (λ a. Stays-Moves (say-Stays _))
                (Stays-Moves (del-Stays (atoi arg1))))
            (by_test (either cmd "disasm" "d") (λ e. Stays-Moves (disasm-Stays (strtoul arg1) 10))
              (by_test (either cmd "dump" "x") (λ e. Stays-Moves (dump-Stays (strtoul arg1)))
                (by_test (either cmd "exit" "q") (λ e. quit-Moves)
                  (by_test (either cmd "get" "g") (λ e. Stays-Moves (get_reg-Stays arg1))
                    (by_test (eq_text cmd (codes "getregs")) (λ e. Stays-Moves getregs-Stays)
                      (by_test (either cmd "help" "h") (λ e. Stays-Moves help-Stays)
                        (by_test (either cmd "list" "l") (λ e. Stays-Moves list-Stays)
                          (by_test (eq_text cmd (codes "load")) (λ e. load-Moves arg1 e)
                            (by_test (either cmd "run" "r")
                              (λ e. run-Moves (starts (inr e)) (ends (inr (inl e))))
                              (by_test (either cmd "vmmap" "m") (λ e. Stays-Moves vmmap-Stays)
                                (by_test (either cmd "set" "s")
                                  (λ e.
                                    by_test (no_text arg1 || no_text arg2)
                                      (λ a. Stays-Moves (say-Stays _))
                                      (Stays-Moves (set_reg-Stays arg1 (strtoul arg2))))
                                  (by_test (eq_text cmd (codes "si"))
                                    (λ e. si-Moves (ends (inr (inr e))))
                                    (by_test (eq_text cmd (codes "start"))
                                      (λ e. start-Moves (starts (inl e)))
                                      (Stays-Moves (pure-Stays tt)))))))))))))))))

-- A command that comes back has left the state as it was or taken one step: load from NONLOAD to
-- LOADED, start or run from LOADED to RUNNING, and cont, run or si from RUNNING to LOADED.
pub execute-Step :
    (k : Kernel) (cmd arg1 arg2 : Text) (s t : Sdb k)
    → execute cmd arg1 arg2 s ≡ done tt t
    → Step cmd s.phase t.phase
execute-Step k cmd arg1 arg2 s t e =
    subst (Behind (Step cmd s.phase)) e ((execute-Moves cmd arg1 arg2).moves s)
