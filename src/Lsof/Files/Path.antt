-- ===== src/Lsof/Files/Path.antt =====
-- What get_file of hw1/hw1.c prints, and what it leaves of the process.
use mathlib.Core.List.{append_assoc}
use nctu_unix.Base.{
  ℕ, ◌≤◌, ◌≡◌, refl, ap, ◌∙◌, ◌⊎◌, inl, inr, Bool, ◌++◌, none, some, length, take, take-append,
}
use nctu_unix.Base.Numbers.{decimal}
use nctu_unix.Lsof.Options.{Text, Options}
use nctu_unix.Lsof.Row.{Row, file_type, print_info}
use nctu_unix.Lsof.Process.{Stat, Files, Process, State, strncat, cut_path, print, denied}
use nctu_unix.Lsof.Buffers.{target_fits, buffer_stays}
use nctu_unix.Lsof.Files.{
  Link, link_name, link_fd, link_dir, with_link, show_answer, show_denied, show_link, get_file,
}

-- The path is the directory of the process, as `parent_length` says.
abbrev pub AtParent : State → Type 0
AtParent s = s.process.parent_length ≡ length s.process.path

pub cut_back :
    (p : Process) (text : Text)
    → p.parent_length ≡ length p.path
    → record p { path = take p.parent_length (p.path ++ text) } ≡ p
cut_back p text h =
    ap (λ (t : Text). record p { path = t })
      (ap (λ (n : ℕ). take n (p.path ++ text)) h ∙ take-append p.path text)

module _ (files : Files) where
  -- The link cannot be read, or its target fits `path` and answers to stat.
  abbrev pub IsShown : Text → Link → Type 0
  IsShown dir link =
      (files.readlink (dir ++ link_name link) ≡ none)
      ⊎ ((target : Text) × (files.readlink (dir ++ link_name link) ≡ some target)
          × (length target ≤ 1023)
          × ((st : Stat) × (files.stat (dir ++ link_name link) ≡ some st)))

module _ (files : Files) (matches : Text → Text → Bool) (o : Options) where
  -- One row with the label of the link has been given to `print_info`.
  pub record Shows (link : Link) (s t : State) : Type 0 where
    pub row : Row
    pub given : t.out ≡ print_info matches o row s.out
    pub label : row.fd ≡ link_fd link
    pub same_process : t.process ≡ s.process
    pub same_fds : t.fd_buff ≡ s.fd_buff
    pub small : length t.file_buff ≤ 1023

  -- Where the link cannot be read or its target answers to stat, get_file comes back with one row
  -- printed, and the process is as it was, its path at its directory.
  pub get_file-Shows :
      (link : Link) (s : State)
      → AtParent s
      → length s.file_buff ≤ 1023
      → IsShown files s.process.path link
      → (t : State) × (get_file files matches o link s ≡ some t) × Shows link s t
  unfolding get_file show_link print
  get_file-Shows link s h b (inl e) = (
    show_denied files matches o link (strncat denied (strncat (link_name link) s)),
    rw (get_file, show_link, e) refl,
    record {
      row = _;
      given = refl;
      label = refl;
      same_process =
          ap (λ (path : Text). record s.process { path = take s.process.parent_length path })
            (append_assoc s.process.path (link_name link) denied)
          ∙ cut_back s.process (link_name link ++ denied) h;
      same_fds = refl;
      small = b;
    },
  )
  get_file-Shows link s h b (inr (target, e, short, (st, f))) = (
    cut_path s.process.parent_length (
        print matches o (link_fd link) (file_type st.st_mode) (decimal st.st_ino)
          (link_dir files matches o target s)
          (with_link files matches o target (strncat (link_name link) s))),
    rw (get_file, show_link, e, target_fits target s.file_buff short b, show_answer, f) refl,
    record {
      row = _;
      given = refl;
      label = refl;
      same_process = cut_back s.process (link_name link) h;
      same_fds = refl;
      small = buffer_stays target s.file_buff short b;
    },
  )
