-- ===== src/LsofCpp/Main/Named.antt =====
-- Whose name and which command stand in the rows of a process (hw1/hw1.cpp).
use mathlib.Core.Path.{subst}
use nctu_unix.Base.{
  ◌⊎◌, ℕ, suc, ◌-◌, ◌≡◌, refl, ap, sym, ◌∙◌, Bool, List, [], ◌∷◌, ◌++◌, Option, none, some, inl,
  inr, codes, length, take, arith, Option-cases,
}
use nctu_unix.Base.Numbers.{decimal}
use nctu_unix.LsofCpp.Options.{Text, Filters}
use nctu_unix.LsofCpp.Links.{Answer-cases, Stat, value, error, Files}
use nctu_unix.LsofCpp.Main.{command, inner, owner, proc_path}

-- The directory of the process.
abbrev pub process_dir : ℕ → Text
process_dir pid = codes "/proc/" ++ (decimal pid ++ codes "/")

-- The name of the user whom the directory belongs to; no text where the user has no name, or the
-- directory cannot be looked at.
pub data Owns (files : Files) (pid : ℕ) : Text → Type 0 where
  named :
      (st : Stat) (name : Text)
      → files.stat (process_dir pid) ≡ value st
      → files.getpwuid st.st_uid ≡ some name
      → Owns files pid name
  nameless :
      (st : Stat)
      → files.stat (process_dir pid) ≡ value st
      → files.getpwuid st.st_uid ≡ none
      → Owns files pid []
  gone : (code : ℕ) → files.stat (process_dir pid) ≡ error code → Owns files pid []

-- The word without its first and its last character.
pub data Within : Text → Text → Type 0 where
  between : (c d : ℕ) (cmd : Text) → Within (c ∷ (cmd ++ (d ∷ []))) cmd
  alone : (c : ℕ) → Within (c ∷ []) []

-- What stands in the parentheses of the second word of the process's file "stat", or of the only
-- one.
pub record Commands (files : Files) (pid : ℕ) (cmd : Text) : Type 0 where
  pub word : Text
  pub reads :
      (files.words (process_dir pid ++ codes "stat") ≡ value (word ∷ []))
      ⊎ ((first : Text) × (rest : List Text) × (files.words (process_dir pid ++ codes "stat")
            ≡ value (first ∷ word ∷ rest)))
  pub within : Within word cmd

last_of : (x : ℕ) (xs : Text) → (d : ℕ) × (x ∷ xs ≡ take (length xs) (x ∷ xs) ++ (d ∷ []))
last_of x [] = (x, refl)
last_of x (y ∷ xs) = let (d, e) = last_of y xs in (d, ap (λ (t : Text). x ∷ t) e)

abbrev of_some : Text → Option Text → Text
of_some t none = t
of_some t (some u) = u

inner-Within : (word cmd : Text) → inner word ≡ some cmd → Within word cmd
inner-Within [] cmd e = absurd (ground (arith, e))
inner-Within (c ∷ []) cmd e = subst (Within (c ∷ [])) (ap (of_some []) e) (alone c)
inner-Within (c ∷ x ∷ xs) cmd e =
    let (d, f) = last_of x xs in
    let n : suc (length xs) - 1 ≡ length xs = omega arith in
    let g : take (length xs) (x ∷ xs) ≡ cmd =
      ap (λ (k : ℕ). take k (x ∷ xs)) (sym n) ∙ ap (of_some []) e in
    subst (λ (w : Text). Within (c ∷ w) cmd) (sym f)
      (subst (λ (t : Text). Within (c ∷ (take (length xs) (x ∷ xs) ++ (d ∷ []))) t) g
        (between c d (take (length xs) (x ∷ xs))))

module _ (files : Files) (matches : Text → Text → Bool) (o : Filters) (pid : ℕ) where
  pub command-Commands :
      (words : List Text) (cmd : Text)
      → files.words (proc_path files matches o pid ++ codes "stat") ≡ value words
      → inner (command words) ≡ some cmd
      → Commands files pid cmd
  command-Commands [] cmd e f = absurd (ground (arith, f))
  command-Commands (word ∷ []) cmd e f = record {
    word = word;
    reads = inl e;
    within = inner-Within word cmd f;
  }
  command-Commands (first ∷ word ∷ rest) cmd e f = record {
    word = word;
    reads = inr (first, rest, e);
    within = inner-Within word cmd f;
  }

  pub owner-Owns : Owns files pid (owner files matches o (files.stat (process_dir pid)))
  owner-Owns = elim (Answer-cases (files.stat (process_dir pid))) [
    | inl (st, e) ↦ elim (Option-cases (files.getpwuid st.st_uid)) [
      | inl f ↦ rw (e, f) (nameless st e f)
      | inr (name, f) ↦ rw (e, f) (named st name e f)
    ]
    | inr (code, e) ↦ rw e (gone code e)
  ]
