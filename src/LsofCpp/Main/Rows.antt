-- ===== src/LsofCpp/Main/Rows.antt =====
-- That every row of a process that hw1/hw1.cpp prints is one of that process.
use nctu_unix.Base.{
  refl, inl, inr, Bool, ◌==◌, List, [], ◌∷◌, ◌++◌, Option, none, some, codes, Bool-cases,
}
use nctu_unix.LsofCpp.Options.{Text, Filters}
use nctu_unix.LsofCpp.Result.{Process}
use nctu_unix.LsofCpp.Links.{
  Answer-cases, Stat, Answer, value, error, Files, State, after, print, file_type, eacces,
}
use nctu_unix.LsofCpp.Maps.{file_maps}
use nctu_unix.LsofCpp.Fd.{
  is_dots, entry_file, entry_path, fd_loop, closed, denied_file, show_dir, file_fd, with_lstat,
}
use nctu_unix.LsofCpp.Main.{show_all}
use nctu_unix.LsofCpp.Main.Grown.{
  Same, Grown, same_rows, then_Grown, print-Grown, after-Grown, with_stat-Same, file_type-Grown,
  file_maps-Grown,
}

module _ (files : Files) (matches : Text → Text → Bool) (o : Filters) (base : Process) where
  with_lstat-Same :
      (name : Text) (st : Answer Stat) (file : Process)
      → Same base file
      → Same base (with_lstat name st file)
  with_lstat-Same name (value st) file h = record { pid = h.pid; cmd = h.cmd; user = h.user }
  with_lstat-Same name (error e) file h = h

  entry_file-Same :
      (name target : Text) (file : Process)
      → Same base file
      → Same base (entry_file files matches o name target file)
  entry_file-Same name target file h =
      with_lstat-Same name (files.lstat (entry_path files matches o file name)) _ (
        with_stat-Same files matches o base (files.stat (entry_path files matches o file name)) _
          (record { pid = h.pid; cmd = h.cmd; user = h.user }))

  fd_loop-Grown :
      (names : List Text) (file : Process) (s : State)
      → Same base file
      → Grown matches o base s (fd_loop files matches o names file s)
  unfolding fd_loop
  fd_loop-Grown [] file s h = same_rows matches o base s s refl
  fd_loop-Grown (name ∷ names) file s h = elim (Bool-cases (is_dots name)) [
    | inl d ↦ rw (fd_loop, d) (fd_loop-Grown names file s h)
    | inr n ↦ elim (Answer-cases (files.readlink (entry_path files matches o file name))) [
      | inl (target, e) ↦
          let next = entry_file files matches o name target file in
          let same = entry_file-Same name target file h in
          let lstat = files.lstat (entry_path files matches o file name) in
          let stat = files.stat (entry_path files matches o file name) in
          rw (fd_loop, n, e)
            (after-Grown files matches o base stat s _ (
              after-Grown files matches o base lstat (after stat s) _ (
                then_Grown matches o base (after lstat (after stat s)) _ _
                  (print-Grown matches o base files next (after lstat (after stat s)) same)
                  (fd_loop-Grown names next
                    (print files matches o next (after lstat (after stat s))) same))))
      | inr (code, e) ↦
          rw (fd_loop, n, e)
            (after-Grown files matches o base
              (files.readlink (entry_path files matches o file name)) s _
              (rw e (fd_loop-Grown names file (record s { errno = code }) h)))
    ]
  ]

  closed-Grown :
      (dir : Answer (List Text)) (s : State) → Grown matches o base s (closed files matches o dir s)
  closed-Grown (value names) s = same_rows matches o base s s refl
  closed-Grown (error e) s = same_rows matches o base s (record s { errno = 22 }) refl

  abbrev pub GrownIf : State → Option State → Type 0
  GrownIf s none = Unit
  GrownIf s (some t) = Grown matches o base s t

  show_dir-Grown :
      (dir : Answer (List Text)) (file : Process) (s : State)
      → Same base file
      → GrownIf s (show_dir files matches o dir file s)
  show_dir-Grown dir file s h = elim (Bool-cases (s.errno == eacces)) [
    | inl y ↦
        let refused = denied_file files matches o file s.errno in
        rw y (
          then_Grown matches o base s (print files matches o refused s) _
            (print-Grown matches o base files refused s
              (record { pid = h.pid; cmd = h.cmd; user = h.user }))
            (closed-Grown dir (print files matches o refused s)))
    | inr n ↦ elim (Answer-cases dir) [
      | inl (names, e) ↦ rw (n, e) (fd_loop-Grown names file s h)
      | inr (code, e) ↦ rw (n, e) tt
    ]
  ]

  pub from_Grown :
      (s t : State) (r : Option State) → Grown matches o base s t → GrownIf t r → GrownIf s r
  from_Grown s t none g h = tt
  from_Grown s t (some u) g h = then_Grown matches o base s t u g h

  pub file_fd-Grown :
      (file : Process) (s : State) → Same base file → GrownIf s (file_fd files matches o file s)
  unfolding file_fd
  file_fd-Grown file s h =
      let dir = files.opendir (file.path ++ file.dir) in
      from_Grown s (after dir s) _
        (after-Grown files matches o base dir s _ (same_rows matches o base _ _ refl))
        (show_dir-Grown dir file (after dir s) h)

module _ (files : Files) (matches : Text → Text → Bool) (o : Filters) (file : Process) where
  in_dir : (dir : Text) → Same file (record file { dir = dir })
  in_dir dir = record { pid = refl; cmd = refl; user = refl }

  pub show_all-Grown :
      (s : State) → GrownIf files matches o file s (show_all files matches o file s)
  show_all-Grown s =
      let step = file_type files matches o in
      let cwd = step (record file { dir = codes "cwd" }) s in
      let root = step (record file { dir = codes "root" }) cwd in
      let exe = step (record file { dir = codes "exe" }) root in
      let maps = file_maps files matches o (record file { dir = codes "maps" }) exe in
      let link = file_type-Grown files matches o file in
      from_Grown files matches o file s maps _
        (then_Grown matches o file s cwd maps (link _ s (in_dir (codes "cwd"))) (
          then_Grown matches o file cwd root maps (link _ cwd (in_dir (codes "root"))) (
            then_Grown matches o file root exe maps (link _ root (in_dir (codes "exe")))
              (file_maps-Grown files matches o file _ exe (in_dir (codes "maps"))))))
        (file_fd-Grown files matches o file _ maps (in_dir (codes "fd")))
