-- ===== src/LsofCpp/Main/Links.antt =====
-- The rows of the three links of a process (hw1/hw1.cpp).
use nctu_unix.Base.{◌≡◌, refl, ap, ◌∙◌, inl, inr, Bool, List, [], ◌∷◌, ◌++◌, codes}
use nctu_unix.LsofCpp.Options.{Text, no_filters}
use nctu_unix.LsofCpp.Result.{Process, shown_file, labelled, deleted, print_result}
use nctu_unix.LsofCpp.Result.Deleted.{Occurs, shown_file_lem}
use nctu_unix.LsofCpp.Links.{
  Answer-cases, Stat, value, error, Files, State, after, with_stat, print, file_type,
}

-- The row of a link of `file`, with its label and its target.
pub record IsLink (file : Process) (label target : Text) (row : Process) : Type 0 where
  pub pid : row.pid ≡ file.pid
  pub cmd : row.cmd ≡ file.cmd
  pub user : row.user ≡ file.user
  pub fd : row.fd ≡ label
  pub name : row.name ≡ target

not_deleted : (file : Process) → ¬ Occurs deleted file.name → shown_file file ≡ labelled file
not_deleted file h = elim (shown_file_lem file).1 [ inl (o, d) ↦ absurd (h o) | inr (n, e) ↦ e ]

-- What the label of a directory's rows is.
abbrev IsLabel : Text → Text → Type 0
IsLabel dir label = (f : Process) → f.dir ≡ dir → IsLink f label f.name (labelled f)

cwd-IsLabel : IsLabel (codes "cwd") (codes "cwd")
cwd-IsLabel f e = record {
  pid = rw e refl;
  cmd = rw e refl;
  user = rw e refl;
  fd = rw e refl;
  name = rw e refl;
}

root-IsLabel : IsLabel (codes "root") (codes "rtd")
root-IsLabel f e = record {
  pid = rw e refl;
  cmd = rw e refl;
  user = rw e refl;
  fd = rw e refl;
  name = rw e refl;
}

exe-IsLabel : IsLabel (codes "exe") (codes "txt")
exe-IsLabel f e = record {
  pid = rw e refl;
  cmd = rw e refl;
  user = rw e refl;
  fd = rw e refl;
  name = rw e refl;
}

module _ (files : Files) (matches : Text → Text → Bool) where
  -- One row has been printed.
  abbrev OneRow : Process → Text → Text → State → State → Type 0
  OneRow file label target s t =
      (row : Process) × (t.out ≡ s.out ++ (row ∷ [])) × IsLink file label target row

  printed_link :
      (file f : Process) (label target : Text) (s t : State)
      → IsLabel file.dir label
      → ¬ Occurs deleted target
      → f.dir ≡ file.dir
      → f.pid ≡ file.pid
      → f.cmd ≡ file.cmd
      → f.user ≡ file.user
      → t.out ≡ s.out
      → OneRow file label target s (print files matches no_filters (record f { name = target }) t)
  unfolding print_result
  printed_link file f label target s t l n d p c u e =
      let g : Process = record f { name = target } in
      let is = l g d in
      let same = not_deleted g n in
      (
        shown_file g,
        ap (λ (out : List Process). out ++ (shown_file g ∷ [])) e,
        record {
          pid = ap (λ (x : Process). x.pid) same ∙ is.pid ∙ p;
          cmd = ap (λ (x : Process). x.cmd) same ∙ is.cmd ∙ c;
          user = ap (λ (x : Process). x.user) same ∙ is.user ∙ u;
          fd = ap (λ (x : Process). x.fd) same ∙ is.fd;
          name = ap (λ (x : Process). x.name) same ∙ is.name;
        },
      )

  link_row :
      (file : Process) (label target : Text) (s : State)
      → IsLabel file.dir label
      → files.readlink (file.path ++ file.dir) ≡ value target
      → ¬ Occurs deleted target
      → OneRow file label target s (file_type files matches no_filters file s)
  unfolding file_type
  link_row file label target s l e n = elim (Answer-cases (files.stat (file.path ++ file.dir))) [
    | inl (st, f) ↦
        rw (file_type, e, f)
          (printed_link file (with_stat (value st) file) label target s s l n refl refl refl refl
            refl)
    | inr (code, f) ↦
        rw (file_type, e, f)
          (printed_link file (with_stat (error code) file) label target s
            (after {A = Stat} (error code) s) l n refl refl refl refl refl)
  ]

  abbrev pub behind_links : Process → State → State
  behind_links file s =
      let step = file_type files matches no_filters in
      step (record file { dir = codes "exe" })
        (step (record file { dir = codes "root" }) (step (record file { dir = codes "cwd" }) s))

  pub three_links :
      (file : Process) (cwd root exe : Text) (s : State)
      → files.readlink (file.path ++ codes "cwd") ≡ value cwd
      → files.readlink (file.path ++ codes "root") ≡ value root
      → files.readlink (file.path ++ codes "exe") ≡ value exe
      → ¬ Occurs deleted cwd
      → ¬ Occurs deleted root
      → ¬ Occurs deleted exe
      → (a b c : Process) × ((behind_links file s).out ≡ s.out ++ (a ∷ b ∷ c ∷ []))
        × IsLink file (codes "cwd") cwd a
        × IsLink file (codes "rtd") root b
        × IsLink file (codes "txt") exe c
  three_links file cwd root exe s e f g n m k =
      let (a, x, p) =
        link_row (record file { dir = codes "cwd" }) (codes "cwd") cwd s cwd-IsLabel e n in
      let s1 = file_type files matches no_filters (record file { dir = codes "cwd" }) s in
      let (b, y, q) =
        link_row (record file { dir = codes "root" }) (codes "rtd") root s1 root-IsLabel f m in
      let s2 = file_type files matches no_filters (record file { dir = codes "root" }) s1 in
      let (c, z, r) =
        link_row (record file { dir = codes "exe" }) (codes "txt") exe s2 exe-IsLabel g k in
      (
        a,
        b,
        c,
        z
            ∙ ap (λ (out : List Process). out ++ (c ∷ []))
                (y ∙ ap (λ (out : List Process). out ++ (b ∷ [])) x)
            ∙ three s.out a b c,
        moved p,
        moved q,
        moved r,
      )
    where
      moved :
          {d : Text} {label target : Text} {row : Process}
          → IsLink (record file { dir = d }) label target row
          → IsLink file label target row
      moved p = record { pid = p.pid; cmd = p.cmd; user = p.user; fd = p.fd; name = p.name }

      three :
          (out : List Process) (a b c : Process)
          → ((out ++ (a ∷ [])) ++ (b ∷ [])) ++ (c ∷ []) ≡ out ++ (a ∷ b ∷ c ∷ [])
      three [] a b c = refl
      three (x ∷ out) a b c = ap (λ (l : List Process). x ∷ l) (three out a b c)
