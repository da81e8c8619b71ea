-- ===== src/LsofCpp/Main/Grown.antt =====
-- That the functions of hw1/hw1.cpp print rows of their process behind those printed before.
use mathlib.Core.List.{append_assoc, append-nil}
use nctu_unix.Base.{
  ℕ, zero, suc, ◌≡◌, refl, ap, sym, ◌∙◌, inl, inr, Bool, true, false, ◌&&◌, ◌==◌, List, [], ◌∷◌,
  ◌++◌, length, arith, codes, if◌then◌else◌, Bool-cases, Option-cases, eq_text,
}
use nctu_unix.LsofCpp.Options.{Text, Filters}
use nctu_unix.LsofCpp.Result.{
  Process, remove_first, strip, labelled, shown_file, accepts, matched, print_result,
}
use nctu_unix.LsofCpp.Links.{
  Stat, Answer, value, error, Files, State, after, with_stat, print, file_type, show_target, enoent,
}
use nctu_unix.LsofCpp.Maps.{
  Fields, is_shown, lines_loop, file_maps, read_fields, words_from, show_lines, type_if, inode_if,
}

-- Two structures of one process.
pub record Same (base r : Process) : Type 0 where
  pub pid : r.pid ≡ base.pid
  pub cmd : r.cmd ≡ base.cmd
  pub user : r.user ≡ base.user

pub itself-Same : (r : Process) → Same r r
itself-Same r = record { pid = refl; cmd = refl; user = refl }

strip-Same : (n : ℕ) (base file : Process) → Same base file → Same base (strip n file)
unfolding strip
strip-Same zero base file h = h
strip-Same (suc n) base file h = elim (Option-cases (remove_first file.name)) [
  | inl e ↦ rw (strip, e) h
  | inr (name, e) ↦
      rw (strip, e)
        (strip-Same n base (record file { name = name; fd = codes "DEL"; type = codes "unknown" })
          (record { pid = h.pid; cmd = h.cmd; user = h.user }))
]

if-Same :
    (b : Bool) (base x y : Process) → Same base x → Same base y → Same base (if b then x else y)
if-Same true base x y h k = h
if-Same false base x y h k = k

shown_file-Same : (base file : Process) → Same base file → Same base (shown_file file)
unfolding shown_file
shown_file-Same base file h =
    let labelled_as : (fd : Text) → Same base (record file { fd = fd }) =
      λ fd. record { pid = h.pid; cmd = h.cmd; user = h.user } in
    strip-Same (length file.name) base (labelled file) (
      if-Same (eq_text file.dir (codes "cwd")) base _ _ (labelled_as (codes "cwd")) (
        if-Same (eq_text file.dir (codes "root")) base _ _ (labelled_as (codes "rtd"))
          (if-Same (eq_text file.dir (codes "exe")) base _ _ (labelled_as (codes "txt")) h)))

module _ (matches : Text → Text → Bool) (o : Filters) where
  -- Rows of one process, with a command that -c asks for.
  abbrev pub AllOf : Process → List Process → Type 0
  AllOf base [] = Unit
  AllOf base (r ∷ rows) =
      Same base r × (accepts matches o.filter0 o.filtargu0 r.cmd ≡ true) × AllOf base rows

  -- `t` has more rows than `s`, behind those of `s`.
  pub record Grown (base : Process) (s t : State) : Type 0 where
    pub rows : List Process
    pub given : t.out ≡ s.out ++ rows
    pub of : AllOf base rows

module _ (matches : Text → Text → Bool) (o : Filters) (base : Process) where
  AllOf-append :
      (xs ys : List Process)
      → AllOf matches o base xs
      → AllOf matches o base ys
      → AllOf matches o base (xs ++ ys)
  AllOf-append [] ys h k = k
  AllOf-append (x ∷ xs) ys (a, b, h) k = (a, b, AllOf-append xs ys h k)

  pub same_rows : (s t : State) → t.out ≡ s.out → Grown matches o base s t
  same_rows s t e = record { rows = []; given = e ∙ sym (append-nil s.out); of = tt }

  pub then_Grown :
      (s t u : State)
      → Grown matches o base s t
      → Grown matches o base t u
      → Grown matches o base s u
  then_Grown s t u p q = record {
    rows = p.rows ++ q.rows;
    given =
        q.given
        ∙ ap (λ (out : List Process). out ++ q.rows) p.given
        ∙ append_assoc s.out p.rows q.rows;
    of = AllOf-append p.rows q.rows p.of q.of;
  }

  -- A text that the pattern is matched with may be replaced by an equal one.
  first_of : (a b c : Bool) → (a && b && c) ≡ true → a ≡ true
  first_of a b c h = ground (arith, h)

  pub print-Grown :
      (files : Files) (file : Process) (s : State)
      → Same base file
      → Grown matches o base s (print files matches o file s)
  unfolding print_result
  print-Grown files file s h = elim (Bool-cases (matched matches o file)) [
    | inl m ↦ record {
      rows = shown_file file ∷ [];
      given = rw m refl;
      of = (
        shown_file-Same base file h,
        ap (accepts matches o.filter0 o.filtargu0)
              (shown_file-Same file file (itself-Same file)).cmd
            ∙ first_of (accepts matches o.filter0 o.filtargu0 file.cmd)
                (accepts matches o.filter1 o.filtargu1 file.type)
                (accepts matches o.filter2 o.filtargu2 file.name) m,
        tt,
      );
    }
    | inr n ↦ same_rows s (print files matches o file s) (rw n refl)
  ]

module _ (files : Files) (matches : Text → Text → Bool) (o : Filters) (base : Process) where
  pub same_out : {A : Type 0} (a : Answer A) (s : State) → (after a s).out ≡ s.out
  same_out (value x) s = refl
  same_out (error e) s = refl

  pub after-Grown :
      {A : Type 0} (a : Answer A) (s t : State)
      → Grown matches o base (after a s) t
      → Grown matches o base s t
  after-Grown a s t g =
      then_Grown matches o base s (after a s) t
        (same_rows matches o base s (after a s) (same_out a s)) g

  pub with_stat-Same :
      (st : Answer Stat) (file : Process) → Same base file → Same base (with_stat st file)
  with_stat-Same (value st) file h = record { pid = h.pid; cmd = h.cmd; user = h.user }
  with_stat-Same (error e) file h = record { pid = h.pid; cmd = h.cmd; user = h.user }

  target_Grown :
      (link : Answer Text) (file : Process) (s : State)
      → Same base file
      → Grown matches o base s (show_target files matches o link file s)
  target_Grown (value target) file s h =
      print-Grown matches o base files (record file { name = target }) s
        (record { pid = h.pid; cmd = h.cmd; user = h.user })
  target_Grown (error e) file s h = elim (Bool-cases (e == enoent)) [
    | inl gone ↦ same_rows matches o base s _ (rw gone refl)
    | inr n ↦
        rw n (
          print-Grown matches o base files _ s (record { pid = h.pid; cmd = h.cmd; user = h.user }))
  ]

  pub file_type-Grown :
      (file : Process) (s : State)
      → Same base file
      → Grown matches o base s (file_type files matches o file s)
  unfolding file_type
  file_type-Grown file s h = after-Grown (files.stat (file.path ++ file.dir)) s _ (
      after-Grown (files.readlink (file.path ++ file.dir)) _ _ (
        target_Grown (files.readlink (file.path ++ file.dir)) _ _
          (with_stat-Same (files.stat (file.path ++ file.dir)) file h)))

  lines_Grown :
      (lines : List Text) (f : Fields) (file : Process) (s : State)
      → Same base file
      → Grown matches o base s (lines_loop files matches o lines f file s)
  unfolding lines_loop
  lines_Grown [] f file s h = same_rows matches o base s s refl
  lines_Grown (line ∷ lines) f file s h =
      let f' = read_fields (words_from [] line) f in
      let shown = record file { inode = f'.inode; name = f'.pathname } in
      let same : Same base shown = record { pid = h.pid; cmd = h.cmd; user = h.user } in
      elim (Bool-cases (is_shown f' file)) [
        | inl y ↦
            rw (lines_loop, y)
              (then_Grown matches o base s (print files matches o shown s) _
                (print-Grown matches o base files shown s same)
                (lines_Grown lines f' shown (print files matches o shown s) same))
        | inr n ↦ rw (lines_loop, n) (lines_Grown lines f' file s h)
      ]

  type_if-Same : (st : Answer Stat) (file : Process) → Same base file → Same base (type_if st file)
  type_if-Same (value st) file h = record { pid = h.pid; cmd = h.cmd; user = h.user }
  type_if-Same (error e) file h = h

  inode_if-Same :
      (st : Answer Stat) (file : Process) → Same base file → Same base (inode_if st file)
  inode_if-Same (value st) file h = record { pid = h.pid; cmd = h.cmd; user = h.user }
  inode_if-Same (error e) file h = h

  show_lines-Grown :
      (maps : Answer (List Text)) (file : Process) (s : State)
      → Same base file
      → Grown matches o base s (show_lines files matches o maps file s)
  show_lines-Grown (value lines) file s h = lines_Grown lines _ file s h
  show_lines-Grown (error e) file s h = same_rows matches o base s s refl

  pub file_maps-Grown :
      (file : Process) (s : State)
      → Same base file
      → Grown matches o base s (file_maps files matches o file s)
  unfolding file_maps
  file_maps-Grown file s h =
      let stat = files.stat (file.path ++ file.dir) in
      let exe = files.stat (file.path ++ codes "exe") in
      let found = inode_if-Same exe _ (type_if-Same stat file h) in
      after-Grown stat s _ (
        after-Grown exe _ _ (
          after-Grown (files.lines (file.path ++ codes "maps")) _ _ (
            show_lines-Grown (files.lines (file.path ++ codes "maps")) _ _
              (record { pid = found.pid; cmd = found.cmd; user = found.user }))))
