-- ===== src/Lsof/Maps/Rows.antt =====
-- That get_maps of hw1/hw1.c prints rows of mapped files and leaves the process as it was.
use mathlib.Core.Path.{subst}
use nctu_unix.Base.{
  ◌≡◌, refl, ap, sym, ◌∙◌, ◌⊎◌, inl, inr, Bool, leb, List, [], ◌∷◌, ◌++◌, Option, none, some, take,
  codes, Bool-cases, Option-cases, eq_text, get_elem?,
}
use nctu_unix.Lsof.Options.{Text, Options}
use nctu_unix.Lsof.Row.{Row}
use nctu_unix.Lsof.Process.{Files, Process, State, strncat, print}
use nctu_unix.Lsof.Files.Path.{AtParent, cut_back}
use nctu_unix.Lsof.Maps.{
  tokens, Seen, print_map, map_file, map_line, maps_loop, nothing_seen, maps_done, get_maps,
}
use nctu_unix.Lsof.Fds.Entries.{print_all, print_all-append}
use nctu_unix.Lsof.Maps.Ends.{zero_inode}

module _ (matches : Text → Text → Bool) (o : Options) where
  -- `t` is `s` with some rows given to `print_info`, and the same process.
  pub record Gives (P : List Row → Type 0) (s t : State) : Type 0 where
    pub rows : List Row
    pub given : t.out ≡ print_all matches o rows s.out
    pub are : P rows
    pub same_process : t.process ≡ s.process
    pub same_fds : t.fd_buff ≡ s.fd_buff

-- Rows of mapped files.
abbrev pub AllMapped : List Row → Type 0
AllMapped [] = Unit
AllMapped (row ∷ rows) = ((row.fd ≡ codes "mem") ⊎ (row.fd ≡ codes "DEL")) × AllMapped rows

module _ (matches : Text → Text → Bool) (o : Options) where
  print_map-AllMapped :
      (token : Option Text) (inode file : Text) (s : State)
      → Gives matches o AllMapped s (print_map matches o token inode file s)
  unfolding print
  print_map-AllMapped none inode file s = record {
    rows = _ ∷ [];
    given = refl;
    are = (inl refl, tt);
    same_process = refl;
    same_fds = refl;
  }
  print_map-AllMapped (some token) inode file s =
      elim (Bool-cases (eq_text token (codes "(deleted)"))) [
        | inl e ↦ rw e (record {
          rows = _ ∷ [];
          given = refl;
          are = (inr refl, tt);
          same_process = refl;
          same_fds = refl;
        })
        | inr e ↦ record {
          rows = [];
          given = rw e refl;
          are = tt;
          same_process = rw e refl;
          same_fds = rw e refl;
        }
      ]

  -- Two steps, one after the other.
  pub joined_rows :
      (P Q R : List Row → Type 0) (s t u : State)
      → ((xs ys : List Row) → P xs → Q ys → R (xs ++ ys))
      → Gives matches o P s t
      → Gives matches o Q t u
      → Gives matches o R s u
  joined_rows P Q R s t u f p q = record {
    rows = p.rows ++ q.rows;
    given =
        q.given
        ∙ ap (λ (out : List Row). print_all matches o q.rows out) p.given
        ∙ sym (print_all-append matches o p.rows q.rows s.out);
    are = f p.rows q.rows p.are q.are;
    same_process = q.same_process ∙ p.same_process;
    same_fds = q.same_fds ∙ p.same_fds;
  }

  no_rows : (s : State) → Gives matches o AllMapped s s
  no_rows s = record { rows = []; given = refl; are = tt; same_process = refl; same_fds = refl }

  pub AllMapped-append : (xs ys : List Row) → AllMapped xs → AllMapped ys → AllMapped (xs ++ ys)
  AllMapped-append [] ys p q = q
  AllMapped-append (x ∷ xs) ys (m, p) q = (m, AllMapped-append xs ys p q)

  abbrev LineGives : State → Option (Seen × State) → Type 0
  LineGives s none = Unit
  LineGives s (some (seen, t)) = Gives matches o AllMapped s t

  map_file-Gives :
      (inode : Text) (file deleted : Option Text) (seen : Seen) (s : State)
      → LineGives s (map_file matches o inode file deleted seen s)
  map_file-Gives inode none deleted seen s = tt
  map_file-Gives inode (some file) deleted seen s = elim (Bool-cases (eq_text file seen.pre_file)) [
    | inl e ↦ rw e (no_rows s)
    | inr e ↦ rw e (print_map-AllMapped deleted inode file s)
  ]

  map_line-Gives :
      (words : List Text) (seen : Seen) (s : State) → LineGives s (map_line matches o words seen s)
  unfolding map_line
  map_line-Gives words seen s = elim (Option-cases (get_elem? words 4)) [
    | inl e ↦ rw (map_line, e) tt
    | inr (inode, e) ↦ elim (Bool-cases (eq_text inode seen.pre_inode)) [
      | inl same ↦ rw (map_line, e, same) (no_rows s)
      | inr new ↦ elim (Bool-cases (eq_text inode zero_inode)) [
        | inl z ↦ rw (map_line, e, new, z) (no_rows s)
        | inr z ↦
            rw (map_line, e, new, z)
              (map_file-Gives inode (get_elem? words 5) (get_elem? words 6) seen s)
      ]
    ]
  ]

  abbrev pub LoopGives : State → Option State → Type 0
  LoopGives s none = Unit
  LoopGives s (some t) = Gives matches o AllMapped s t

  then-Gives :
      (s t : State) (r : Option State)
      → Gives matches o AllMapped s t
      → LoopGives t r
      → LoopGives s r
  then-Gives s t none g h = tt
  then-Gives s t (some u) g h = joined_rows AllMapped AllMapped AllMapped s t u AllMapped-append g h

  maps_loop-Gives :
      (lines : List Text) (seen : Seen) (s : State) → LoopGives s (maps_loop matches o lines seen s)
  unfolding maps_loop
  maps_loop-Gives [] seen s = elim (Bool-cases (leb 4 seen.break_condition)) [
    | inl e ↦ rw (maps_loop, e) (no_rows s)
    | inr e ↦ rw (maps_loop, e) tt
  ]
  maps_loop-Gives (line ∷ lines) seen s = elim (Bool-cases (leb 4 seen.break_condition)) [
    | inl e ↦ rw (maps_loop, e) (no_rows s)
    | inr e ↦ elim (Option-cases (map_line matches o (tokens line) seen s)) [
      | inl n ↦ rw (maps_loop, e, n) tt
      | inr ((seen', t), f) ↦
          rw (maps_loop, e, f)
            (then-Gives s t (maps_loop matches o lines seen' t)
              (subst (LineGives s) f (map_line-Gives (tokens line) seen s))
              (maps_loop-Gives lines seen' t))
    ]
  ]

module _ (files : Files) (matches : Text → Text → Bool) (o : Options)
    (junk_inode junk_file : Text) where
  maps_done-Gives :
      (s : State) (r : Option State)
      → AtParent s
      → LoopGives matches o (strncat (codes "maps") s) r
      → LoopGives matches o s (maps_done matches o files junk_inode junk_file r)
  maps_done-Gives s none h g = tt
  maps_done-Gives s (some u) h g = record {
    rows = g.rows;
    given = g.given;
    are = g.are;
    same_process =
        ap (λ (p : Process). record p { path = take p.parent_length p.path }) g.same_process
        ∙ cut_back s.process (codes "maps") h;
    same_fds = g.same_fds;
  }

  -- Where get_maps comes back, it has printed rows of mapped files.
  pub get_maps-Gives :
      (s : State) (lines : List Text)
      → AtParent s
      → files.lines (s.process.path ++ codes "maps") ≡ some lines
      → LoopGives matches o s (get_maps matches o files junk_inode junk_file s)
  unfolding get_maps
  get_maps-Gives s lines h e =
      rw (get_maps, e)
        (maps_done-Gives s _ h (
          maps_loop-Gives matches o lines (nothing_seen matches o files junk_inode junk_file)
            (strncat (codes "maps") s)))
