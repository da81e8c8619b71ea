-- ===== src/Debugger/Control/Status.antt =====
-- That cont of hw4/hw4.cpp does what chkstat does.
use nctu_unix.Base.{ℕ, ◌≡◌, refl, ap, fun_ext, inl, inr, Option-cases}
use nctu_unix.Debugger.State.{
  Kernel, Sdb, M, ◌>>=◌, ◌>>◌, get, or_error, set_world, await-cases, continue,
}
use nctu_unix.Debugger.Control.{
  chkbp, resume, report_exit, report_stop, hit_passed, chkstat, if_running, cont,
}

module _ {k : Kernel} where
  -- PTRACE_CONT.
  abbrev pub set_going : M k (Unit {0})
  set_going = do
    s ← get
    w ← or_error "ptrace(PTRACE_CONT)" (k.resume continue s.pid s.world)
    set_world w

  abbrev reported : ℕ → M k (Unit {0})
  reported status = report_exit status >> report_stop hit_passed status

  resume-chkstat :
      (s : Sdb k)
      → (resume "ptrace(PTRACE_CONT)" continue >>= reported) s ≡ (set_going >> chkstat) s
  unfolding resume chkstat
  resume-chkstat s = elim (Option-cases (k.resume continue s.pid s.world)) [
    | inl e ↦ rw (◌>>=◌, ◌>>◌, resume, chkstat, e) refl
    | inr (w, e) ↦ elim (await-cases {k = k} s.pid w) [
      | inl f ↦ rw (◌>>=◌, ◌>>◌, resume, chkstat, e, f) refl
      | inr (inl f) ↦ rw (◌>>=◌, ◌>>◌, resume, chkstat, e, f) refl
      | inr (inr ((status, w2), f)) ↦ rw (◌>>=◌, ◌>>◌, resume, chkstat, e, f) refl
    ]
  ]

  -- On a running program cont sets breakpoints, lets the program go on with PTRACE_CONT, and then
  -- does what chkstat does; on any other it prints a message.
  pub cont-chkstat : (s : Sdb k) → cont s ≡ if_running (chkbp >> (set_going >> chkstat)) s
  unfolding cont
  cont-chkstat s = ap (λ (f : M k (Unit {0})). if_running (chkbp >> f) s) (fun_ext resume-chkstat)
