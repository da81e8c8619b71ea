-- ===== src/LsofCpp/Main/Shown.antt =====
-- That the rows of the three links stand in front of the others (hw1/hw1.cpp).
use mathlib.Core.Path.{subst}
use nctu_unix.Base.{
  ◌≡◌, refl, ap, sym, ◌∙◌, inl, inr, Bool, List, [], ◌∷◌, ◌++◌, codes, Option, some, ◌==◌,
  Bool-cases,
}
use nctu_unix.LsofCpp.Options.{Text, no_filters}
use nctu_unix.LsofCpp.Result.{Process, deleted}
use nctu_unix.LsofCpp.Result.Deleted.{Occurs}
use nctu_unix.LsofCpp.Links.{Answer, value, Files, State, after, print, eacces}
use nctu_unix.LsofCpp.Maps.{file_maps}
use nctu_unix.LsofCpp.Fd.{denied_file, fd_loop, show_dir, file_fd}
use nctu_unix.LsofCpp.Main.{show_all}
use nctu_unix.LsofCpp.Main.Grown.{Same, AllOf, Grown, then_Grown, file_maps-Grown}
use nctu_unix.LsofCpp.Main.Rows.{GrownIf, file_fd-Grown}
use nctu_unix.LsofCpp.Main.Links.{IsLink, behind_links, three_links}

module _ (files : Files) (matches : Text → Text → Bool) where
  -- Every row has the number, the command and the owner of the process.
  abbrev pub AllSame : Process → List Process → Type 0
  AllSame file [] = Unit
  AllSame file (r ∷ rows) = Same file r × AllSame file rows

  all_same :
      (file : Process) (rows : List Process)
      → AllOf matches no_filters file rows
      → AllSame file rows
  all_same file [] h = tt
  all_same file (r ∷ rows) (p, a, h) = (p, all_same file rows h)

  abbrev Opens : Process → State → Answer (List Text) → Type 0
  Opens file s dir =
      (t : State) × (show_dir files matches no_filters dir file (after dir s) ≡ some t)

  given_names : (file : Process) (names : List Text) (s : State) → Opens file s (value names)
  given_names file names s = elim (Bool-cases (s.errno == eacces)) [
    | inl y ↦ (
      print files matches no_filters (denied_file files matches no_filters file s.errno) s,
      rw y refl,
    )
    | inr n ↦ (fd_loop files matches no_filters names file s, rw n refl)
  ]

  opened :
      (file : Process) (names : List Text) (s : State)
      → files.opendir (file.path ++ file.dir) ≡ value names
      → (t : State) × (file_fd files matches no_filters file s ≡ some t)
  unfolding file_fd
  opened file names s e = subst (Opens file s) (sym e) (given_names file names s)

  abbrev behind_maps : Process → State → State
  behind_maps file s = file_maps files matches no_filters (record file { dir = codes "maps" }) s

  given_rows :
      (file : Process) (s t : State) (r : Option State)
      → r ≡ some t
      → GrownIf files matches no_filters file s r
      → Grown matches no_filters file s t
  given_rows file s t r e g = subst (GrownIf files matches no_filters file s) e g

  -- Without options, where the three links of a process can be read, their targets are not deleted
  -- and its directory fd can be opened: the five calls of lsof come back and have printed first the
  -- rows of the links, labelled cwd, rtd and txt, each with the target for its name, and then only
  -- rows that have the number, the command and the owner of the process too.
  pub show_all_links :
      (file : Process) (cwd root exe : Text) (names : List Text) (s : State)
      → files.readlink (file.path ++ codes "cwd") ≡ value cwd
      → files.readlink (file.path ++ codes "root") ≡ value root
      → files.readlink (file.path ++ codes "exe") ≡ value exe
      → files.opendir (file.path ++ codes "fd") ≡ value names
      → ¬ Occurs deleted cwd
      → ¬ Occurs deleted root
      → ¬ Occurs deleted exe
      → (t : State) × (a b c : Process) × (rows : List Process) × (show_all files matches no_filters
            file s
          ≡ some t)
        × (t.out ≡ (s.out ++ (a ∷ b ∷ c ∷ [])) ++ rows)
        × IsLink file (codes "cwd") cwd a
        × IsLink file (codes "rtd") root b
        × IsLink file (codes "txt") exe c
        × AllSame file rows
  show_all_links file cwd root exe names s e f g d n m k =
      let (a, b, c, x, p, q, r) = three_links files matches file cwd root exe s e f g n m k in
      let u : State = behind_links files matches file s in
      let v : State = behind_maps file u in
      let (t, y) = opened (record file { dir = codes "fd" }) names v d in
      let same : (dir : Text) → Same file (record file { dir = dir }) =
        λ dir. record { pid = refl; cmd = refl; user = refl } in
      let more : Grown matches no_filters file u t =
        then_Grown matches no_filters file u v t
          (file_maps-Grown files matches no_filters file (record file { dir = codes "maps" }) u
            (same (codes "maps")))
          (given_rows file v t _ y (
            file_fd-Grown files matches no_filters file (record file { dir = codes "fd" }) v
              (same (codes "fd")))) in
      (
        t,
        a,
        b,
        c,
        more.rows,
        y,
        more.given ∙ ap (λ (out : List Process). out ++ more.rows) x,
        p,
        q,
        r,
        all_same file more.rows more.of,
      )
