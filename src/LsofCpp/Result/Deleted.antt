-- ===== src/LsofCpp/Result/Deleted.antt =====
-- That print_result of hw1/hw1.cpp leaves no "(deleted)" in a name.
use nctu_unix.Base.{
  ℕ, zero, suc, ◌≤◌, ◌<◌, ◌≡◌, ◌≢◌, refl, ap, sym, ◌∙◌, ◌⊎◌, inl, inr, ◌==◌, [], ◌∷◌, ◌++◌, Option,
  none, some, length, arith, codes, Bool-cases, Option-cases, eq_text,
}
use nctu_unix.LsofCpp.Options.{Text}
use nctu_unix.LsofCpp.Result.{
  Process, deleted, after_prefix, put_back, remove_first, strip, labelled, shown_file,
}

-- The word stands somewhere in the text.
abbrev pub Occurs : Text → Text → Type 0
Occurs word text = (before : Text) × (behind : Text) × (text ≡ before ++ (word ++ behind))

-- `after_prefix` finds exactly what stands in front.
after_prefix_append : (p text : Text) → after_prefix p (p ++ text) ≡ some text
after_prefix_append [] text = refl
after_prefix_append (c ∷ p) text = elim (Bool-cases (c == c)) [
  | inl e ↦ rw e (after_prefix_append p text)
  | inr e ↦ absurd (ground (arith, e))
]

none_is_not_some : (x : Text) → none ≢ some x
none_is_not_some x e = ground (arith, e)

after_prefix_found : (p text left : Text) → after_prefix p text ≡ some left → text ≡ p ++ left
after_prefix_found [] text left e = ground (arith, e)
after_prefix_found (c ∷ p) [] left e = absurd (none_is_not_some left e)
after_prefix_found (c ∷ p) (d ∷ text) left e = elim (Bool-cases (c == d)) [
  | inl same ↦
      ap (λ (x : ℕ). x ∷ text) (sym (ground (arith, same)))
      ∙ ap (λ (x : Text). c ∷ x) (after_prefix_found p text left (ground (arith, same, e)))
  | inr other ↦ absurd (ground (arith, other, e))
]

abbrev held : Text → Option Text → Text
held text none = text
held text (some x) = x

some_inj : {a b : Text} → some a ≡ some b → a ≡ b
some_inj {a = a} e = ap (held a) e

abbrev tail : Text → Text
tail [] = []
tail (c ∷ text) = text

front :
    (c : ℕ) (text left : Text)
    → after_prefix deleted (c ∷ text) ≡ some left
    → remove_first (c ∷ text) ≡ some left
unfolding remove_first
front c text left e = rw (remove_first, e) refl

later :
    (c : ℕ) (text : Text)
    → after_prefix deleted (c ∷ text) ≡ none
    → remove_first (c ∷ text) ≡ put_back c (remove_first text)
unfolding remove_first
later c text e = rw (remove_first, e) refl

-- `remove_first` takes the word out where it occurs.
removed :
    (text left : Text)
    → remove_first text ≡ some left
    → Occurs deleted text × (length left < length text)
unfolding remove_first
removed [] left e = absurd (none_is_not_some left e)
removed (c ∷ text) left e = elim (Option-cases (after_prefix deleted (c ∷ text))) [
  | inl n ↦ elim (Option-cases (remove_first text)) [
    | inl m ↦ absurd (none_is_not_some left (sym (later c text n ∙ ap (put_back c) m) ∙ e))
    | inr (left', m) ↦
        let ((before, behind, f), h) = removed text left' m in
        let same : left ≡ c ∷ left' = some_inj (sym e ∙ later c text n ∙ ap (put_back c) m) in
        ((c ∷ before, behind, ap (λ (x : Text). c ∷ x) f), rw same (omega (arith, h)))
  ]
  | inr (rest, f) ↦
      let same : left ≡ rest = some_inj (sym e ∙ front c text rest f) in
      let found : c ∷ text ≡ deleted ++ rest = after_prefix_found deleted (c ∷ text) rest f in
      (([], rest, found), rw same (omega (arith, ap length found)))
]

kept : (text : Text) → remove_first text ≡ none → ¬ Occurs deleted text
unfolding remove_first
kept [] e ([], behind, f) = ground (arith, f)
kept [] e (b ∷ before, behind, f) = ground (arith, f)
kept (c ∷ text) e ([], behind, f) =
    none_is_not_some behind (
      sym e
      ∙ front c text behind (ap (after_prefix deleted) f ∙ after_prefix_append deleted behind))
kept (c ∷ text) e (b ∷ before, behind, f) = elim (Option-cases (after_prefix deleted (c ∷ text))) [
  | inl n ↦ elim (Option-cases (remove_first text)) [
    | inl m ↦ kept text m (before, behind, ap tail f)
    | inr (left, m) ↦ none_is_not_some (c ∷ left) (sym e ∙ later c text n ∙ ap (put_back c) m)
  ]
  | inr (rest, h) ↦ none_is_not_some rest (sym e ∙ front c text rest h)
]

abbrev taken : Process → Text → Process
taken file name = record file { name = name; fd = codes "DEL"; type = codes "unknown" }

-- With as many rounds as the name has characters no round finds the word at the end.
strip_ends :
    (n : ℕ) (file : Process) → length file.name ≤ n → remove_first (strip n file).name ≡ none
unfolding strip
strip_ends zero file h = elim (Option-cases (remove_first file.name)) [
  | inl e ↦ e
  | inr (name, e) ↦ absurd (ground (arith, h, (removed file.name name e).1))
]
strip_ends (suc n) file h = elim (Option-cases (remove_first file.name)) [
  | inl e ↦ rw (strip, e) e
  | inr (name, e) ↦
      rw (strip, e)
        (strip_ends n (taken file name) (omega (arith, h, (removed file.name name e).1)))
]

abbrev pub IsDel : Process → Type 0
IsDel file = (file.fd ≡ codes "DEL") × (file.type ≡ codes "unknown")

strip-IsDel : (n : ℕ) (file : Process) → IsDel file → IsDel (strip n file)
unfolding strip
strip-IsDel zero file h = h
strip-IsDel (suc n) file h = elim (Option-cases (remove_first file.name)) [
  | inl e ↦ rw (strip, e) h
  | inr (name, e) ↦ rw (strip, e) (strip-IsDel n (taken file name) (refl, refl))
]

strip-some :
    (n : ℕ) (file : Process) (name : Text)
    → length file.name ≤ n
    → remove_first file.name ≡ some name
    → IsDel (strip n file)
unfolding strip
strip-some zero file name h e = absurd (ground (arith, h, (removed file.name name e).1))
strip-some (suc n) file name h e = rw (strip, e) (strip-IsDel n (taken file name) (refl, refl))

strip-none : (n : ℕ) (file : Process) → remove_first file.name ≡ none → strip n file ≡ file
unfolding strip
strip-none zero file e = refl
strip-none (suc n) file e = rw (strip, e) refl

labelled_name : (file : Process) → (labelled file).name ≡ file.name
labelled_name file = elim (Bool-cases (eq_text file.dir (codes "cwd"))) [
  | inl a ↦ rw a refl
  | inr a ↦ elim (Bool-cases (eq_text file.dir (codes "root"))) [
    | inl b ↦ rw (a, b) refl
    | inr b ↦ elim (Bool-cases (eq_text file.dir (codes "exe"))) [
      | inl c ↦ rw (a, b, c) refl
      | inr c ↦ rw (a, b, c) refl
    ]
  ]
]

pub shown_file_lem :
    (file : Process)
    → (¬ Occurs deleted (shown_file file).name)
      × ((Occurs deleted file.name × IsDel (shown_file file))
          ⊎ ((¬ Occurs deleted file.name) × (shown_file file ≡ labelled file)))
unfolding shown_file
shown_file_lem file =
    let fuel : length (labelled file).name ≤ length file.name =
      omega (arith, ap length (labelled_name file)) in
    (
      kept (shown_file file).name (strip_ends (length file.name) (labelled file) fuel),
      elim (Option-cases (remove_first file.name)) [
        | inl e ↦ inr (
          kept file.name e,
          strip-none (length file.name) (labelled file) (ap remove_first (labelled_name file) ∙ e),
        )
        | inr (name, e) ↦ inl (
          (removed file.name name e).0,
          strip-some (length file.name) (labelled file) name fuel
              (ap remove_first (labelled_name file) ∙ e),
        )
      ],
    )
