-- ===== src/Lsof/Fds/Entries.antt =====
-- Which rows get_fds of hw1/hw1.c prints.
use mathlib.Core.Path.{subst}
use mathlib.Core.List.{map-append}
use nctu_unix.Base.{
  ◌≤◌, ◌≡◌, refl, ap, sym, ◌∙◌, ◌⊎◌, inl, inr, Bool, true, false, List, [], ◌∷◌, ◌++◌, Option, none,
  some, length, take, take-append, map, arith, codes, if◌then◌else◌, Bool-cases, Option-cases,
}
use nctu_unix.Lsof.Options.{Text, Options}
use nctu_unix.Lsof.Row.{Row, print_info}
use nctu_unix.Lsof.Row.Letter.{owner_reads, owner_writes, owner_letter, descriptor-owner_letter}
use nctu_unix.Lsof.Buffers.{target_fits, buffer_stays}
use nctu_unix.Lsof.Process.{Stat, Files, Process, State, strncat, print}
use nctu_unix.Lsof.Fds.{is_dots, print_fd, with_target, fd_loop, in_fds, get_fds}

module _ (files : Files) where
  -- The link can be read, its target fits `path` and answers to stat.
  pub record IsOpen (dir name : Text) : Type 0 where
    pub target : Text
    pub st : Stat
    pub reads : files.readlink (dir ++ name) ≡ some target
    pub short : length target ≤ 1023
    pub answers : files.stat (dir ++ name) ≡ some st

  abbrev pub AllOpen : Text → List Text → Type 0
  AllOpen dir [] = Unit
  AllOpen dir (name ∷ names) = ((is_dots name ≡ true) ⊎ IsOpen dir name) × AllOpen dir names

  -- The descriptors of a directory, each with the letter for what its target's owner may do.
  abbrev letter : Text → Option Stat → List Text → List Text
  letter name none rest = rest
  letter name (some st) rest =
      (name ++ owner_letter (owner_reads st.st_mode) (owner_writes st.st_mode)) ∷ rest

  abbrev pub descriptors : Text → List Text → List Text
  descriptors dir [] = []
  descriptors dir (name ∷ names) =
      let rest = descriptors dir names in
      if is_dots name then rest else letter name (files.stat (dir ++ name)) rest

abbrev pub fd_of : Row → Text
fd_of row = row.fd

module _ (matches : Text → Text → Bool) (o : Options) where
  -- `print_info` of one row after the other.
  abbrev pub print_all : List Row → List Row → List Row
  print_all [] out = out
  print_all (row ∷ rows) out = print_all rows (print_info matches o row out)

module _ (matches : Text → Text → Bool) (o : Options) where
  pub print_all-append :
      (xs ys out : List Row)
      → print_all matches o (xs ++ ys) out ≡ print_all matches o ys (print_all matches o xs out)
  print_all-append [] ys out = refl
  print_all-append (x ∷ xs) ys out = print_all-append xs ys (print_info matches o x out)

module _ (files : Files) where
  descriptors_cons :
      (dir name : Text) (front : List Text)
      → is_dots name ≡ false
      → descriptors files dir (name ∷ []) ++ descriptors files dir front
        ≡ descriptors files dir (name ∷ front)
  descriptors_cons dir name front n = elim (Option-cases (files.stat (dir ++ name))) [
    | inl e ↦ rw (n, e) refl
    | inr (st, e) ↦ rw (n, e) refl
  ]

module _ (files : Files) (matches : Text → Text → Bool) (o : Options) where
  -- What the loop has done after some entries.
  pub record Printed (names : List Text) (s t : State) : Type 0 where
    pub rows : List Row
    pub given : t.out ≡ print_all matches o rows s.out
    pub in_order : map fd_of rows ≡ descriptors files s.process.path names
    pub same_process : t.process ≡ s.process
    pub small : length t.fd_buff ≤ 1023

  same_path :
      (p : Process) (text : Text) → record p { path = take (length p.path) (p.path ++ text) } ≡ p
  same_path p text = ap (λ (t : Text). record p { path = t }) (take-append p.path text)

  abbrev after : Text → Stat → Text → State → State
  after name st target s =
      print_fd files matches o (length s.process.path) name st target (strncat name s)

  one_entry :
      (name : Text) (s : State)
      → is_dots name ≡ false
      → length s.fd_buff ≤ 1023
      → (q : IsOpen files s.process.path name) → Printed (name ∷ []) s (after name q.st q.target s)
  unfolding print
  one_entry name s n b q = record {
    rows = _ ∷ [];
    given = refl;
    in_order = rw (n, q.answers, descriptor-owner_letter name q.st.st_mode) refl;
    same_process = same_path s.process name;
    small = buffer_stays q.target s.fd_buff q.short b;
  }

  join :
      (name : Text) (front : List Text) (s t u : State)
      → is_dots name ≡ false
      → Printed (name ∷ []) s t
      → Printed front t u
      → Printed (name ∷ front) s u
  join name front s t u n p q = record {
    rows = p.rows ++ q.rows;
    given =
        q.given
        ∙ ap (λ (out : List Row). print_all matches o q.rows out) p.given
        ∙ sym (print_all-append matches o p.rows q.rows s.out);
    in_order =
        map-append fd_of p.rows q.rows
        ∙ ap (λ (fds : List Text). fds ++ map fd_of q.rows) p.in_order
        ∙ ap (λ (fds : List Text). descriptors files s.process.path (name ∷ []) ++ fds)
            (q.in_order ∙ ap (λ (r : Process). descriptors files r.path front) p.same_process)
        ∙ descriptors_cons files s.process.path name front n;
    same_process = q.same_process ∙ p.same_process;
    small = q.small;
  }

  skip :
      (name : Text) (front : List Text) (s t : State)
      → is_dots name ≡ true
      → Printed front s t
      → Printed (name ∷ front) s t
  skip name front s t d q = record {
    rows = q.rows;
    given = q.given;
    in_order = q.in_order ∙ rw d refl;
    same_process = q.same_process;
    small = q.small;
  }

  not_dots :
      (name dir : Text)
      → is_dots name ≡ false
      → (is_dots name ≡ true) ⊎ IsOpen files dir name
      → IsOpen files dir name
  not_dots name dir n (inl d) = absurd (ground (arith, n, d))
  not_dots name dir n (inr q) = q

  -- The loop passes the entries at the front that are open, and goes on with the rest.
  fd_front :
      (front rest : List Text) (s : State)
      → AllOpen files s.process.path front
      → length s.fd_buff ≤ 1023
      → (t : State) × (fd_loop files matches o (front ++ rest) s ≡ fd_loop files matches o rest t)
        × Printed front s t
  unfolding fd_loop
  fd_front [] rest s h b =
      (s, refl, record { rows = []; given = refl; in_order = refl; same_process = refl; small = b })
  fd_front (name ∷ front) rest s h b = elim (Bool-cases (is_dots name)) [
    | inl d ↦
        let (t, e, p) = fd_front front rest s h.1 b in
        (t, rw (fd_loop, d) e, skip name front s t d p)
    | inr n ↦
        let q = not_dots name s.process.path n h.0 in
        let u = after name q.st q.target s in
        let first = one_entry name s n b q in
        let (t, e, p) =
          fd_front front rest u
            (subst (λ (r : Process). AllOpen files r.path front) (sym first.same_process) h.1)
            first.small in
        (
          t,
          rw (fd_loop, n, q.reads, target_fits q.target s.fd_buff q.short b, q.answers) e,
          join name front s u t n first p,
        )
  ]

  -- No entry is left, or the next one has a link whose target fits `path` and does not answer to stat.
  abbrev pub Stops : Text → List Text → Type 0
  Stops dir [] = Unit
  Stops dir (name ∷ names) =
      (is_dots name ≡ false)
      × ((target : Text) × (files.readlink (dir ++ name) ≡ some target) × (length target ≤ 1023))
      × (files.stat (dir ++ name) ≡ none)

  stopped :
      (rest : List Text) (t : State)
      → Stops t.process.path rest
      → length t.fd_buff ≤ 1023
      → (u : State) × (fd_loop files matches o rest t ≡ some u) × (u.out ≡ t.out)
  unfolding fd_loop
  stopped [] t h b = (t, refl, refl)
  stopped (name ∷ names) t (n, (target, e, short), f) b = (
    with_target files matches o target (strncat name t),
    rw (fd_loop, n, e, target_fits target t.fd_buff short b, f) refl,
    refl,
  )

  -- Of a directory whose first entries are open, and whose next entry, if there is one, has a
  -- target that does not answer to stat, get_fds gives print_info one row for each of those first
  -- entries but `.` and `..`, in their order and with u, r, w or nothing behind the number as the
  -- owner of the target may read and write it, and none for the others: where no target has more
  -- than 1023 characters, and the buffer holds no more at first.
  pub get_fds_rows :
      (s : State) (front rest : List Text)
      → files.entries (s.process.path ++ codes "fd/") ≡ some (front ++ rest)
      → AllOpen files (s.process.path ++ codes "fd/") front
      → Stops (s.process.path ++ codes "fd/") rest
      → length s.fd_buff ≤ 1023
      → (u : State) × (rows : List Row) × (get_fds files matches o s ≡ some u)
        × (u.out ≡ print_all matches o rows s.out)
        × (map fd_of rows ≡ descriptors files (s.process.path ++ codes "fd/") front)
  unfolding get_fds
  get_fds_rows s front rest e a h b =
      let (t, f, p) = fd_front front rest (in_fds files matches o s) a b in
      let (u, g, same) =
        stopped rest t (subst (λ (r : Process). Stops r.path rest) (sym p.same_process) h)
          p.small in
      (u, p.rows, rw (get_fds, e) (f ∙ g), same ∙ p.given, p.in_order)
