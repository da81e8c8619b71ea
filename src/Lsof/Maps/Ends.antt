-- ===== src/Lsof/Maps/Ends.antt =====
-- When get_maps of hw1/hw1.c comes back.
use mathlib.Core.Path.{subst}
use nctu_unix.Base.{
  ℕ, suc, ◌+◌, ◌≤◌, ◌<◌, ◌≡◌, ◌≢◌, refl, ap, sym, ◌⊎◌, inl, inr, Bool, false, leb, if◌then◌else◌,
  List, [], ◌∷◌, ◌++◌, Option, none, some, get_elem?, codes, eq_text, eq_text_refl, eq_text_sound,
  length, arith, Bool-cases, Option-cases,
}
use nctu_unix.Lsof.Options.{Text, Options}
use nctu_unix.Lsof.Process.{Files, State, strncat, cut_path}
use nctu_unix.Lsof.Maps.{tokens, Seen, map_line, maps_loop, get_maps, print_map, nothing_seen}

abbrev pub zero_inode : Text
zero_inode = codes "0"

-- A line with an inode and, unless that is 0, with a path.
abbrev pub IsComplete : Text → Type 0
IsComplete line =
    (inode : Text) × (get_elem? (tokens line) 4 ≡ some inode)
    × ((inode ≡ zero_inode) ⊎ ((file : Text) × (get_elem? (tokens line) 5 ≡ some file)))

abbrev pub AllComplete : List Text → Type 0
AllComplete [] = Unit
AllComplete (line ∷ lines) = IsComplete line × AllComplete lines

-- A line of a mapping without a file.
abbrev pub is_anonymous : Option Text → Bool
is_anonymous none = false
is_anonymous (some inode) = eq_text inode zero_inode

abbrev pub AllAnonymous : List Text → Type 0
AllAnonymous [] = Unit
AllAnonymous (line ∷ lines) = (get_elem? (tokens line) 4 ≡ some zero_inode) × AllAnonymous lines

abbrev pub anonymous_count : List Text → ℕ
anonymous_count [] = 0
anonymous_count (line ∷ lines) =
    let rest = anonymous_count lines in
    if is_anonymous (get_elem? (tokens line) 4) then suc rest else rest

not_zero : (a b : Text) → a ≢ b → eq_text a b ≡ false
not_zero a b h = elim (Bool-cases (eq_text a b)) [
  | inl e ↦ absurd (h (eq_text_sound a b e))
  | inr e ↦ e
]

differ : (a b : Text) → eq_text a b ≡ false → a ≢ b
differ a b h e = absurd (ground (arith, h, ap (λ (x : Text). eq_text x b) e, eq_text_refl b))

abbrev Within : Option (Seen × State) → ℕ → Type 0
Within none n = Unit
Within (some x) n = x.0.break_condition ≤ n

module _ (matches : Text → Text → Bool) (o : Options) where
  -- An anonymous line adds one to the count and prints nothing.
  anonymous_line :
      (words : List Text) (seen : Seen) (s : State)
      → seen.pre_inode ≢ zero_inode
      → get_elem? words 4 ≡ some zero_inode
      → map_line matches o words seen s
        ≡ some (record seen { break_condition = seen.break_condition + 1 }, s)
  unfolding map_line
  anonymous_line words seen s h e =
      rw (map_line, e, not_zero zero_inode seen.pre_inode (λ same. h (sym same))) refl

  -- A complete line is passed, and leaves an inode that is not 0.
  complete_line :
      (line : Text) (seen : Seen) (s : State)
      → seen.pre_inode ≢ zero_inode
      → IsComplete line
      → (seen' : Seen) × (t : State) × (map_line matches o (tokens line) seen s ≡ some (seen', t))
        × (seen'.pre_inode ≢ zero_inode)
  unfolding map_line
  complete_line line seen s h (inode, e, p) = elim (Bool-cases (eq_text inode seen.pre_inode)) [
    | inl same ↦ (seen, s, rw (map_line, e, same) refl, h)
    | inr new ↦ elim (Bool-cases (eq_text inode zero_inode)) [
      | inl z ↦ (
        record seen { break_condition = seen.break_condition + 1 },
        s,
        rw (map_line, e, new, z) refl,
        h,
      )
      | inr z ↦ elim p [
        | inl is ↦ absurd (differ inode zero_inode z is)
        | inr (file, f) ↦ elim (Bool-cases (eq_text file seen.pre_file)) [
          | inl old ↦
              (record seen { break_condition = 0 }, s, rw (map_line, e, new, z, f, old) refl, h)
          | inr other ↦ (
            record { pre_inode = inode; pre_file = file; break_condition = 0 },
            print_map matches o (get_elem? (tokens line) 6) inode file s,
            rw (map_line, e, new, z, f, other) refl,
            differ inode zero_inode z,
          )
        ]
      ]
    ]
  ]

  -- Lines at the end that are all anonymous end the loop when there are enough of them.
  anonymous_end :
      (lines : List Text) (seen : Seen) (s : State)
      → seen.pre_inode ≢ zero_inode
      → AllAnonymous lines
      → 4 ≤ seen.break_condition + length lines
      → maps_loop matches o lines seen s ≡ some s
  unfolding maps_loop
  anonymous_end [] seen s h a n = ground (arith, n)
  anonymous_end (line ∷ lines) seen s h a n = elim (Bool-cases (leb 4 seen.break_condition)) [
    | inl enough ↦ rw (maps_loop, enough) refl
    | inr more ↦
        rw (maps_loop, more, anonymous_line (tokens line) seen s h a.0)
          (anonymous_end lines (record seen { break_condition = seen.break_condition + 1 }) s h a.1
            (omega arith))
  ]

  under : (n : ℕ) → n < 4 → leb 4 n ≡ false
  under n h = ground (arith, h)

  -- A line that is passed adds at most one to the count, and only if it is anonymous.
  line-Within :
      (words : List Text) (seen : Seen) (s : State)
      → Within
          (map_line matches o words seen s)
          (seen.break_condition + (if is_anonymous (get_elem? words 4) then 1 else 0))
  unfolding map_line
  line-Within words seen s = elim (Option-cases (get_elem? words 4)) [
    | inl e ↦ rw (map_line, e) tt
    | inr (inode, e) ↦ elim (Bool-cases (eq_text inode seen.pre_inode)) [
      | inl same ↦ rw (map_line, e, same) (omega arith)
      | inr new ↦ elim (Bool-cases (eq_text inode zero_inode)) [
        | inl z ↦ rw (map_line, e, new, z) (omega arith)
        | inr z ↦ elim (Option-cases (get_elem? words 5)) [
          | inl f ↦ rw (map_line, e, new, z, f) tt
          | inr (file, f) ↦ elim (Bool-cases (eq_text file seen.pre_file)) [
            | inl old ↦ rw (map_line, e, new, z, f, old) (omega arith)
            | inr other ↦ rw (map_line, e, new, z, f, other) (omega arith)
          ]
        ]
      ]
    ]
  ]

  line_count :
      (words : List Text) (seen : Seen) (s : State) (x : Seen × State)
      → map_line matches o words seen s ≡ some x
      → x.0.break_condition
        ≤ seen.break_condition + (if is_anonymous (get_elem? words 4) then 1 else 0)
  line_count words seen s x e =
      subst
        (λ (r : Option (Seen × State)).
          Within r (seen.break_condition + (if is_anonymous (get_elem? words 4) then 1 else 0)))
        e (line-Within words seen s)

  -- Any lines that have too few anonymous ones run into the end of the file.
  too_few :
      (lines : List Text) (seen : Seen) (s : State)
      → seen.break_condition + anonymous_count lines < 4
      → maps_loop matches o lines seen s ≡ none
  unfolding maps_loop
  too_few [] seen s n = ground (arith, n)
  too_few (line ∷ lines) seen s n = elim (Option-cases (map_line matches o (tokens line) seen s)) [
    | inl e ↦ rw (maps_loop, under seen.break_condition (omega arith), e) refl
    | inr (x, e) ↦
        rw (maps_loop, under seen.break_condition (omega arith), e)
          (too_few lines x.0 x.1 (ground (arith, n, line_count (tokens line) seen s x e)))
  ]

module _ (files : Files) (matches : Text → Text → Bool) (o : Options)
    (junk_inode junk_file : Text) where
  -- The lines before those at the end.
  complete_front :
      (lines last : List Text) (seen : Seen) (s : State)
      → seen.pre_inode ≢ zero_inode
      → AllComplete lines
      → AllAnonymous last
      → 4 ≤ length last
      → (t : State) × (maps_loop matches o (lines ++ last) seen s ≡ some t)
  unfolding maps_loop
  complete_front [] last seen s h c a n =
      (s, anonymous_end matches o last seen s h a (omega (arith, n)))
  complete_front (line ∷ lines) last seen s h c a n =
      elim (Bool-cases (leb 4 seen.break_condition)) [
        | inl enough ↦ (s, rw (maps_loop, enough) refl)
        | inr more ↦
            let (seen', t, e, h') = complete_line matches o line seen s h c.0 in
            let (u, f) = complete_front lines last seen' t h' c.1 a n in
            (u, rw (maps_loop, more, e) f)
      ]

  -- get_maps comes back where the buffer of inodes does not hold "0" at first, every line of the
  -- file has an inode and, unless that is 0, a path, and the last four lines or more have the
  -- inode 0.
  pub get_maps_ends :
      (s : State) (lines last : List Text)
      → files.lines (s.process.path ++ codes "maps") ≡ some (lines ++ last)
      → junk_inode ≢ zero_inode
      → AllComplete lines
      → AllAnonymous last
      → 4 ≤ length last
      → (t : State) × (get_maps matches o files junk_inode junk_file s ≡ some t)
  unfolding get_maps
  get_maps_ends s lines last e h c a n =
      let (t, f) =
        complete_front lines last (nothing_seen matches o files junk_inode junk_file)
          (strncat (codes "maps") s) h c a n in
      (cut_path t.process.parent_length t, rw (get_maps, e, f) refl)

  -- Where fewer than four lines of the file have the inode 0, get_maps does not come back: it
  -- copies from a null pointer.
  pub get_maps_fails :
      (s : State) (lines : List Text)
      → files.lines (s.process.path ++ codes "maps") ≡ some lines
      → anonymous_count lines < 4
      → get_maps matches o files junk_inode junk_file s ≡ none
  unfolding get_maps
  get_maps_fails s lines e n =
      rw
        (
          get_maps,
          e,
          too_few matches o lines (nothing_seen matches o files junk_inode junk_file)
              (strncat (codes "maps") s) (omega (arith, n)),
        )
        refl
