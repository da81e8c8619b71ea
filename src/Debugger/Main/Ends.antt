-- ===== src/Debugger/Main/Ends.antt =====
-- That a script ends sdb (hw4/hw4.cpp).
use nctu_unix.Base.{
  ◌≡◌, ◌≢◌, ap, Bool, ◌==◌, true, false, List, [], ◌∷◌, Option, none, some, inl, inr, Bool-cases,
  arith, ◌⊎◌,
}
use nctu_unix.Debugger.State.{Kernel, Sdb, M, Outcome, done, exited, fault, blocked, pure, Text}
use nctu_unix.Debugger.Load.{load}
use nctu_unix.Debugger.Shell.{script, quit, command}
use nctu_unix.Debugger.Main.{open_script, is_script, arguments, commands, main}

-- What holds of a result, if there is one.
abbrev OnDone : {k : Kernel} {A : Type 0} → (A → Type 0) → Outcome k A → Type 0
OnDone P (done a s) = P a
OnDone P (exited s) = Unit
OnDone P (fault why) = Unit
OnDone P blocked = Unit

abbrev is_done : {k : Kernel} {A : Type 0} → Outcome k A → Bool
is_done (done a s) = true
is_done (exited s) = false
is_done (fault why) = false
is_done blocked = false

-- There is no result.
abbrev Left : {k : Kernel} {A : Type 0} → Outcome k A → Type 0
Left o = OnDone (λ a. ⊥) o

abbrev IsGiven : Option (List Text) → Type 0
IsGiven none = ⊥
IsGiven (some file) = Unit

-- There is a -s among the arguments.
abbrev pub HasScript : List Text → Type 0
HasScript [] = ⊥
HasScript (arg ∷ argv) = (is_script arg ≡ true) ⊎ HasScript argv

only : (f : Option (List Text)) → IsGiven f ⊎ ⊥ → IsGiven f
only f (inl g) = g
only f (inr e) = absurd e

later :
    (arg : Text) (argv : List Text) (f : Option (List Text))
    → is_script arg ≡ false
    → IsGiven f ⊎ HasScript (arg ∷ argv)
    → IsGiven f ⊎ HasScript argv
later arg argv f e (inl g) = inl g
later arg argv f e (inr (inl y)) = absurd (ground (arith, e, y))
later arg argv f e (inr (inr g)) = inr g

module _ {k : Kernel} where
  not_done : (o : Outcome k (Unit {0})) → Left o → (t : Sdb k) → o ≢ done tt t
  not_done (done a s) h t e = h
  not_done (exited s) h t e = absurd (ground (arith, ap is_done e))
  not_done (fault why) h t e = absurd (ground (arith, ap is_done e))
  not_done blocked h t e = absurd (ground (arith, ap is_done e))

  OnDone-bind :
      {A B : Type 0} (P : A → Type 0) (Q : B → Type 0) (o : Outcome k A) (g : A → M k B)
      → OnDone P o
      → ((a : A) (s : Sdb k) → P a → OnDone Q (g a s))
      → OnDone Q (elim o [
        | done a s' ↦ g a s'
        | exited s' ↦ exited s'
        | fault why ↦ fault why
        | blocked ↦ blocked
      ])
  OnDone-bind P Q (done a s) g p h = h a s p
  OnDone-bind P Q (exited s) g p h = tt
  OnDone-bind P Q (fault why) g p h = tt
  OnDone-bind P Q blocked g p h = tt

  any-OnDone : {A : Type 0} (o : Outcome k A) → OnDone (λ a. Unit {0}) o
  any-OnDone (done a s) = tt
  any-OnDone (exited s) = tt
  any-OnDone (fault why) = tt
  any-OnDone blocked = tt

  quit-Left : (s : Sdb k) → Left (quit s)
  unfolding quit
  quit-Left s = elim (Bool-cases (s.pid == 0)) [ inl e ↦ rw e tt | inr e ↦ rw e tt ]

  script-Left : (lines : List Text) (s : Sdb k) → Left (script lines s)
  unfolding script
  script-Left [] s = quit-Left s
  script-Left (line ∷ lines) s =
      OnDone-bind (λ u. Unit {0}) (λ u. ⊥) (command line s) (λ u. script lines)
        (any-OnDone (command line s)) (λ u t p. script-Left lines t)

  -- A script that is given stays given, and one that is among the arguments is given.
  arguments-IsGiven :
      (argv : List Text) (f : Option (List Text)) (s : Sdb k)
      → IsGiven f ⊎ HasScript argv
      → OnDone IsGiven (arguments argv f s)
  unfolding arguments
  arguments-IsGiven [] f s (inl g) = g
  arguments-IsGiven [] f s (inr g) = absurd g
  arguments-IsGiven (arg ∷ []) f s g = elim (Bool-cases (is_script arg)) [
    | inl e ↦ rw e tt
    | inr e ↦ rw e (
        OnDone-bind (λ u. Unit {0}) IsGiven (load arg s) (λ u. pure f) (any-OnDone (load arg s))
          (λ u t p. only f (later arg [] f e g)))
  ]
  arguments-IsGiven (arg ∷ path ∷ argv) f s g = elim (Bool-cases (is_script arg)) [
    | inl e ↦ rw e (
        OnDone-bind (λ u. Unit {0}) IsGiven (open_script f path s) _
          (any-OnDone (open_script f path s))
          (λ lines t p. arguments-IsGiven argv (some lines) t (inl tt)))
    | inr e ↦ rw e (
        OnDone-bind (λ u. Unit {0}) IsGiven (load arg s) _ (any-OnDone (load arg s))
          (λ u t p. arguments-IsGiven (path ∷ argv) f t (later arg (path ∷ argv) f e g)))
  ]

  commands-Left :
      (lines : List Text) (f : Option (List Text)) (s : Sdb k)
      → IsGiven f
      → Left (commands lines f s)
  commands-Left lines none s g = absurd g
  commands-Left lines (some file) s g = script-Left file s

  main-Left : (argv lines : List Text) (s : Sdb k) → HasScript argv → Left (main argv lines s)
  unfolding main
  main-Left argv lines s g =
      OnDone-bind IsGiven (λ u. ⊥) (arguments argv none s) (commands lines)
        (arguments-IsGiven argv none s (inr g)) (λ f t p. commands-Left lines f t p)

-- sdb started with -s among its arguments never gets to asking for a command, whatever is typed and
-- whatever the commands of the script are, from any state: it ends by a call of exit, waits for
-- ever for the program, or does something undefined.
pub main_ends :
    (k : Kernel) (s t : Sdb k) (argv lines : List Text)
    → HasScript argv
    → main argv lines s ≢ done tt t
main_ends k s t argv lines g = not_done (main argv lines s) (main-Left argv lines s g) t
