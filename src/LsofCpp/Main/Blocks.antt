-- ===== src/LsofCpp/Main/Blocks.antt =====
-- Which rows the whole run of hw1/hw1.cpp prints.
use mathlib.Core.List.{append_assoc, append-nil}
use mathlib.Core.Path.{subst}
use nctu_unix.Base.{
  ℕ, ◌≡◌, refl, ap, sym, ◌∙◌, inl, inr, Bool, false, ◌==◌, List, [], ◌∷◌, ◌++◌, Option, none, some,
  arith, codes, Bool-cases, Option-cases, ◌⊎◌,
}
use nctu_unix.Base.Numbers.{leading}
use nctu_unix.LsofCpp.Options.{Text, Filters, Opt, filters, options_loop, no_filters}
use nctu_unix.LsofCpp.Result.{Process}
use nctu_unix.LsofCpp.Links.{Answer-cases, Answer, value, error, Files, State, after}
use nctu_unix.LsofCpp.Fd.{is_dots}
use nctu_unix.LsofCpp.Main.{
  Outcome, done, exited, undefined, thrown, finished, command, inner, show_all, started,
  show_process, lsof, proc_loop, main, proc_path, nothing, owner,
}
use nctu_unix.LsofCpp.Main.Named.{process_dir, Owns, Commands, owner-Owns, command-Commands}
use nctu_unix.LsofCpp.Main.Grown.{AllOf, same_rows}
use nctu_unix.LsofCpp.Main.Rows.{GrownIf, from_Grown, show_all-Grown}

module _ (files : Files) (matches : Text → Text → Bool) (o : Filters) where
  -- What has been printed when the program is done or has left.
  abbrev pub printed : Outcome → Option (List Process)
  printed (done s) = some s.out
  printed (exited out) = some out
  printed undefined = none
  printed thrown = none

  abbrev base_of : ℕ → Text → Text → Process
  base_of pid cmd user = record {
    pid = pid;
    path = [];
    dir = [];
    cmd = cmd;
    user = user;
    type = [];
    fd = [];
    inode = [];
    name = [];
  }

  -- The rows of one process: each has its number, its command, which -c asks for, and its owner.
  pub record OfProcess (pid : ℕ) (rows : List Process) : Type 0 where
    pub cmd : Text
    pub user : Text
    pub commands : Commands files pid cmd
    pub owns : Owns files pid user
    pub all : AllOf matches o (base_of pid cmd user) rows

  abbrev pub OfEntry : ℕ → List Process → Type 0
  OfEntry pid rows = (rows ≡ []) ⊎ OfProcess pid rows

  -- The rows are those of the entries, one entry after the other.
  abbrev pub Blocks : List Text → List Process → Type 0
  Blocks [] rows = rows ≡ []
  Blocks (name ∷ names) rows =
      (a b : List Process) × (rows ≡ a ++ b) × OfEntry (leading 10 0 name) a × Blocks names b

  no_rows-Blocks : (names : List Text) → Blocks names []
  no_rows-Blocks [] = refl
  no_rows-Blocks (name ∷ names) = ([], [], refl, inl refl, no_rows-Blocks names)

  -- What has been added to the rows, in every case in which rows are printed.
  abbrev Adds : (List Process → Type 0) → State → Outcome → Type 0
  Adds P s (done t) = (rows : List Process) × (t.out ≡ s.out ++ rows) × P rows
  Adds P s (exited out) = (rows : List Process) × (out ≡ s.out ++ rows) × P rows
  Adds P s undefined = Unit
  Adds P s thrown = Unit

  based :
      (pid : ℕ) (cmd : Text) (rows : List Process)
      → AllOf matches o (started files matches o pid cmd) rows
      → AllOf matches o
          (base_of pid cmd (owner files matches o (files.stat (process_dir pid))))
          rows
  based pid cmd [] h = tt
  based pid cmd (r ∷ rows) (same, a, h) =
      (record { pid = same.pid; cmd = same.cmd; user = same.user }, a, based pid cmd rows h)

  finished-Adds :
      (pid : ℕ) (cmd : Text) (s : State) (r : Option State)
      → Commands files pid cmd
      → GrownIf files matches o (started files matches o pid cmd) s r
      → Adds (OfEntry pid) s (finished r)
  finished-Adds pid cmd s none c g = tt
  finished-Adds pid cmd s (some t) c g = (
    g.rows,
    g.given,
    inr (record {
      cmd = cmd;
      user = _;
      commands = c;
      owns = owner-Owns files matches o pid;
      all = based pid cmd g.rows g.of;
    }),
  )

  process_Adds :
      (pid : ℕ) (words : List Text) (s t : State)
      → files.words (proc_path files matches o pid ++ codes "stat") ≡ value words
      → s.out ≡ t.out
      → Adds (OfEntry pid) s (show_process files matches o pid (inner (command words)) t)
  process_Adds pid words s t w e = elim (Option-cases (inner (command words))) [
    | inl n ↦ rw n tt
    | inr (cmd, c) ↦
        let base = started files matches o pid cmd in
        rw c (
          finished-Adds pid cmd s (show_all files matches o base t)
            (command-Commands files matches o pid words cmd w c)
            (from_Grown files matches o base s t _ (same_rows matches o base s t (sym e))
              (show_all-Grown files matches o base t)))
  ]

  same_after : {A : Type 0} (a : Answer A) (s : State) → s.out ≡ (after a s).out
  same_after (value x) s = refl
  same_after (error e) s = refl

  lsof-Adds : (pid : ℕ) (s : State) → Adds (OfEntry pid) s (lsof files matches o pid s)
  unfolding lsof
  lsof-Adds pid s =
      let stat = files.stat (proc_path files matches o pid) in
      elim (Answer-cases (files.words (proc_path files matches o pid ++ codes "stat"))) [
        | inl (words, e) ↦
            rw (lsof, e) (process_Adds pid words s (after stat s) e (same_after stat s))
        | inr (code, e) ↦
            rw (lsof, e) ([], sym (same_after stat s) ∙ sym (append-nil s.out), inl refl)
      ]

  no_entry :
      (name : Text) (names : List Text) (rows : List Process)
      → Blocks names rows
      → Blocks (name ∷ names) rows
  no_entry name names rows b = ([], rows, refl, inl refl, b)

  skipped :
      (name : Text) (names : List Text) (s : State) (r : Outcome)
      → Adds (Blocks names) s r
      → Adds (Blocks (name ∷ names)) s r
  skipped name names s (done t) (rows, e, b) = (rows, e, no_entry name names rows b)
  skipped name names s (exited out) (rows, e, b) = (rows, e, no_entry name names rows b)
  skipped name names s undefined b = tt
  skipped name names s thrown b = tt

  -- The rows of one entry, and behind them those of the others.
  joined :
      (name : Text) (names : List Text) (s s' : State) (a : List Process) (r : Outcome)
      → s'.out ≡ s.out ++ a
      → OfEntry (leading 10 0 name) a
      → Adds (Blocks names) s' r
      → Adds (Blocks (name ∷ names)) s r
  joined name names s s' a (done t) e p (b, f, q) = (
    a ++ b,
    f ∙ ap (λ (out : List Process). out ++ b) e ∙ append_assoc s.out a b,
    (a, b, refl, p, q),
  )
  joined name names s s' a (exited out) e p (b, f, q) =
      (a ++ b, f ∙ ap (λ (x : List Process). x ++ b) e ∙ append_assoc s.out a b, (a, b, refl, p, q))
  joined name names s s' a undefined e p q = tt
  joined name names s s' a thrown e p q = tt

  entry_Adds :
      (name : Text) (names : List Text) (s : State) (r : Outcome)
      → ((s' : State) → Adds (Blocks names) s' (proc_loop files matches o names s'))
      → is_dots name ≡ false
      → (leading 10 0 name == 0) ≡ false
      → lsof files matches o (leading 10 0 name) s ≡ r
      → Adds (OfEntry (leading 10 0 name)) s r
      → Adds (Blocks (name ∷ names)) s (proc_loop files matches o (name ∷ names) s)
  unfolding proc_loop
  entry_Adds name names s (done s') rest n z e (a, f, p) =
      rw (proc_loop, n, z, e)
        (joined name names s s' a (proc_loop files matches o names s') f p (rest s'))
  entry_Adds name names s (exited out) rest n z e (a, f, p) =
      rw (proc_loop, n, z, e) (a, f, (a, [], sym (append-nil a), p, no_rows-Blocks names))
  entry_Adds name names s undefined rest n z e p = rw (proc_loop, n, z, e) tt
  entry_Adds name names s thrown rest n z e p = rw (proc_loop, n, z, e) tt

  proc_Adds :
      (names : List Text) (s : State) → Adds (Blocks names) s (proc_loop files matches o names s)
  unfolding proc_loop
  proc_Adds [] s = ([], sym (append-nil s.out), refl)
  proc_Adds (name ∷ names) s = elim (Bool-cases (is_dots name)) [
    | inl d ↦
        rw (proc_loop, d)
          (skipped name names s (proc_loop files matches o names s) (proc_Adds names s))
    | inr n ↦ elim (Bool-cases (leading 10 0 name == 0)) [
      | inl z ↦
          rw (proc_loop, n, z)
            (skipped name names s (proc_loop files matches o names s) (proc_Adds names s))
      | inr z ↦
          entry_Adds name names s (lsof files matches o (leading 10 0 name) s) (proc_Adds names) n z
            refl (lsof-Adds (leading 10 0 name) s)
    ]
  ]

  abbrev rows_or : Option (List Process) → List Process
  rows_or none = []
  rows_or (some rows) = rows

  held :
      (names : List Text) (rows : List Process) (r : Outcome)
      → printed r ≡ some rows
      → Adds (Blocks names) nothing r
      → Blocks names rows
  held names rows (done t) e (more, f, b) = subst (Blocks names) (sym f ∙ ap rows_or e) b
  held names rows (exited out) e (more, f, b) = subst (Blocks names) (sym f ∙ ap rows_or e) b
  held names rows undefined e b = absurd (ground (arith, e))
  held names rows thrown e b = absurd (ground (arith, e))

  -- Where the options are read as `o` and /proc has the entries `names`, the rows that are
  -- printed until the program is done or leaves because the file of a process is gone are those
  -- of the entries, in their order: an entry has none, or each of its rows has the number that the
  -- entry starts with, the command that stands in the parentheses of the second word of its file
  -- stat, which the pattern of -c matches, and the name of the user to whom its directory belongs,
  -- or no name where there is none.
  pub main_rows :
      (opts : List Opt) (argv names : List Text) (rows : List Process)
      → options_loop opts 0 argv no_filters ≡ filters o
      → files.opendir (codes "/proc/") ≡ value names
      → printed (main files matches opts argv) ≡ some rows
      → Blocks names rows
  unfolding main
  main_rows opts argv names rows e f p =
      held names rows (proc_loop files matches o names nothing)
        (sym (ap printed (rw (main, e, f) refl)) ∙ p) (proc_Adds names nothing)
