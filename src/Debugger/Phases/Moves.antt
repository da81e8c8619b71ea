-- ===== src/Debugger/Phases/Moves.antt =====
-- To which of NONLOAD, LOADED and RUNNING the commands of sdb lead that change them (hw4/hw4.cpp).
use nctu_unix.Base.{
  ℕ, ◌≡◌, ◌≢◌, refl, ap, ◌∙◌, ◌⊎◌, inl, inr, false, ◌==◌, List, Bool-cases, Option-cases,
}
use nctu_unix.Debugger.State.{await-cases}
use nctu_unix.Debugger.State.{
  Kernel, Sdb, M, ◌>>=◌, ◌>>◌, Phase, nonload, loaded, running, is_running, Text, Breakpoint, Regs,
}
use nctu_unix.Debugger.Control.{
  report_exit, report_stop, hit_passed, hit_reached, if_running, cont, si, launch, start, wifexited,
  chkbp,
}
use nctu_unix.Debugger.Load.{
  load_elf, fread_at, header_size, is_elf, e_class, string_header, text_header,
}
use nctu_unix.Debugger.Phases.{
  Behind, Behind-map, Behind-bind, Leads, Stays, stays_then, then_stays,
}
use nctu_unix.Debugger.Phases.Same.{
  chkbp-Stays, resume-Stays, hit_passed-Stays, hit_reached-Stays, report_stop-Stays,
}

-- A program that ran still runs, or has ended.
abbrev pub Ran : Phase → Type 0
Ran q = (q ≡ running) ⊎ (q ≡ loaded)

-- A loaded program is as it was, or runs.
abbrev pub Went : Phase → Type 0
Went q = (q ≡ loaded) ⊎ (q ≡ running)

swapped : (q : Phase) → Ran q → Went q
swapped q (inl e) = inr e
swapped q (inr e) = inl e

module _ {k : Kernel} where
  report_exit-Leads : (status : ℕ) → Leads {k = k} running (report_exit status) Ran
  unfolding report_exit
  report_exit-Leads status = record {
    leads = λ s e. elim (Bool-cases (wifexited status)) [
      | inl y ↦ rw y (inr refl)
      | inr n ↦ rw n (inl e)
    ];
  }

  if_running-Leads : (f : M k (Unit {0})) → Leads running f Ran → Leads running (if_running f) Ran
  unfolding if_running
  if_running-Leads f h = record { leads = λ s e. rw (ap is_running e) (h.leads s e) }

  if_running-same :
      (f : M k (Unit {0})) (s : Sdb k)
      → is_running s.phase ≡ false
      → Behind (λ q. q ≡ s.phase) (if_running f s)
  unfolding if_running
  if_running-same f s e = rw e refl

  -- What follows the chkbp of cont and si.
  resumed :
      (hit : List Breakpoint → Regs → M k (Unit {0})) (g : M k ℕ)
      → ((bs : List Breakpoint) (regs : Regs) → Stays (hit bs regs))
      → Stays g
      → Leads running (chkbp >> (g >>= λ status. report_exit status >> report_stop hit status)) Ran
  resumed hit g h p = stays_then chkbp-Stays (λ u.
      stays_then p
        (λ status. then_stays (report_exit-Leads status) (λ v. report_stop-Stays hit status h)))

  pub cont-Leads : Leads {k = k} running cont Ran
  unfolding cont
  cont-Leads = if_running-Leads _ (resumed hit_passed _ hit_passed-Stays (resume-Stays _ _))

  pub si-Leads : Leads {k = k} running si Ran
  unfolding si
  si-Leads = if_running-Leads _ (resumed hit_reached _ hit_reached-Stays (resume-Stays _ _))

  pub cont-same : (s : Sdb k) → is_running s.phase ≡ false → Behind (λ q. q ≡ s.phase) (cont s)
  unfolding cont
  cont-same s e = if_running-same _ s e

  pub si-same : (s : Sdb k) → is_running s.phase ≡ false → Behind (λ q. q ≡ s.phase) (si s)
  unfolding si
  si-same s e = if_running-same _ s e

  launch-Leads : Leads {k = k} loaded launch (λ q. q ≡ running)
  unfolding launch
  launch-Leads = record {
    leads = λ s h. elim (Option-cases (k.spawn s.file_path s.world)) [
      | inl e ↦ rw e tt
      | inr (x, e) ↦ elim (await-cases {k = k} x.0 x.1) [
        | inl a ↦ rw (e, ◌>>=◌, a) tt
        | inr (inl a) ↦ rw (e, ◌>>=◌, a) tt
        | inr (inr (y, a)) ↦ elim (Option-cases (k.set_options x.0 y.1)) [
          | inl e'' ↦ rw (e, ◌>>=◌, a, e'') tt
          | inr (w, e'') ↦ rw (e, ◌>>=◌, a, e'') refl
        ]
      ]
    ];
  }

  pub start-Leads : Leads {k = k} loaded start Went
  unfolding start
  start-Leads = record {
    leads = λ s e. elim (Bool-cases (s.pid == 0)) [
      | inl z ↦
          simp (start, e, z)
            (Behind-map (λ q. q ≡ running) _ (launch s) (λ q r. inr r) (launch-Leads.leads s e))
      | inr n ↦ simp (start, e, n) (inl refl)
    ];
  }

  pub start-same :
      (s : Sdb k) (p : Phase) → p ≢ loaded → s.phase ≡ p → Behind (λ q. q ≡ s.phase) (start s)
  unfolding start
  start-same s nonload h e = simp (start, e) refl
  start-same s loaded h e = absurd (h refl)
  start-same s running h e = simp (start, e) refl

  continued : (t : Sdb k) → (t.phase ≡ loaded) ⊎ (t.phase ≡ running) → Behind Went (cont t)
  continued t (inl e) =
      Behind-map (λ q. q ≡ t.phase) _ (cont t) (λ q f. inl (f ∙ e)) (cont-same t (ap is_running e))
  continued t (inr e) = Behind-map Ran _ (cont t) swapped (cont-Leads.leads t e)

  pub start_then_cont : Leads {k = k} loaded (start >> cont) Went
  start_then_cont = record {
    leads = λ s e.
        Behind-bind Went _ (start s) (λ u. cont) (start-Leads.leads s e) (λ u t p. continued t p);
  }

  pub load_elf-Leads :
      (arg : Text) (file : List ℕ)
      → Leads {k = k} nonload (load_elf arg file) (λ q. (q ≡ nonload) ⊎ (q ≡ loaded))
  unfolding load_elf
  load_elf-Leads arg file = record {
    leads = λ s e. elim (Bool-cases (is_elf (fread_at file 0 header_size s.elf.ehdr))) [
      | inr a ↦ rw a (inl e)
      | inl a ↦ elim (Bool-cases (e_class (fread_at file 0 header_size s.elf.ehdr) == 2)) [
        | inr b ↦ rw (a, b) (inl e)
        | inl b ↦
            elim (Option-cases (
              text_header file (fread_at file 0 header_size s.elf.ehdr)
                (string_header file (fread_at file 0 header_size s.elf.ehdr) s.elf.str_shdr))) [
                  | inl t ↦ rw (a, b, t) tt
                  | inr (found, t) ↦ rw (a, b, t) (inr refl)
                ]
      ]
    ];
  }
