-- ===== src/Logger/Launcher/Variables.antt =====
-- The environment, and `setenv` with its last argument 1, for hw2/hw2.cpp.
use nctu_unix.Base.{
  ℕ, ◌≡◌, refl, false, if◌then◌else◌, List, [], ◌∷◌, Option, none, some, eq_text, eq_text_refl,
  eq_text_sound, Bool-cases, inl, inr, ap, sym, ◌∙◌,
}

abbrev pub Text : Type 0
Text = List ℕ

abbrev pub Environment : Type 0
Environment = List (Text × Text)

unfoldable pub setenv : Text → Text → Environment → Environment
setenv name value [] = (name, value) ∷ []
setenv name value (entry ∷ env) =
    let rest = setenv name value env in
    if eq_text name entry.0 then (name, value) ∷ env else entry ∷ rest

unfoldable pub getenv : Text → Environment → Option Text
getenv name [] = none
getenv name (entry ∷ env) =
    let rest = getenv name env in if eq_text name entry.0 then some entry.1 else rest

-- What has been set is got.
pub getenv-setenv :
    (name value : Text) (env : Environment) → getenv name (setenv name value env) ≡ some value
unfolding getenv setenv
getenv-setenv name value [] = rw (eq_text_refl name) refl
getenv-setenv name value (entry ∷ env) = elim (Bool-cases (eq_text name entry.0)) [
  | inl e ↦ rw (setenv, e, getenv, eq_text_refl name) refl
  | inr e ↦ rw (setenv, e, getenv, e) (getenv-setenv name value env)
]

-- Other names are not touched.
pub getenv-setenv_other :
    (name other value : Text) (env : Environment)
    → eq_text name other ≡ false
    → getenv name (setenv other value env) ≡ getenv name env
unfolding getenv setenv
getenv-setenv_other name other value [] h = rw h refl
getenv-setenv_other name other value (entry ∷ env) h = elim (Bool-cases (eq_text other entry.0)) [
  | inl e ↦
      let different : eq_text name entry.0 ≡ false =
        sym (ap (eq_text name) (eq_text_sound other entry.0 e)) ∙ h in
      rw (setenv, e, getenv, h, different) refl
  | inr e ↦ elim (Bool-cases (eq_text name entry.0)) [
    | inl f ↦ rw (setenv, e, getenv, f) refl
    | inr f ↦ rw (setenv, e, getenv, f) (getenv-setenv_other name other value env h)
  ]
]
