-- ===== src/Debugger/Phases.antt =====
-- The states NONLOAD, LOADED and RUNNING of sdb (hw4/hw4.cpp): which command may change them.
pub mod Same
pub mod Moves
pub mod Steps
use Prim.Native.String.{String}
use mathlib.Core.Path.{subst}
use nctu_unix.Base.{
  ℕ, ◌≡◌, ◌≢◌, refl, sym, ◌∙◌, ◌⊎◌, Bool, true, false, not, List, Option, none, some, if◌then◌else◌,
  codes, eq_text,
}
use nctu_unix.Debugger.State.{
  Kernel, Sdb, M, Outcome, done, exited, fault, blocked, await, pure, ◌>>=◌, ◌>>◌, get, or_error,
  set_world, set_bp_list, say, Regs, Phase, nonload, loaded, running, Item, get_registers,
  set_registers, Text,
}
use nctu_unix.Debugger.Breakpoints.{poke_text}
use nctu_unix.Debugger.Shell.{either}

-- The steps between states that a command may take.
pub data Step : Text → Phase → Phase → Type 0 where
  stays : {cmd : Text} {p : Phase} → Step cmd p p
  loads : {cmd : Text} → eq_text cmd (codes "load") ≡ true → Step cmd nonload loaded
  starts :
      {cmd : Text}
      → (eq_text cmd (codes "start") ≡ true) ⊎ (either cmd "run" "r" ≡ true)
      → Step cmd loaded running
  ends :
      {cmd : Text}
      → (either cmd "cont" "c" ≡ true)
        ⊎ ((either cmd "run" "r" ≡ true) ⊎ (eq_text cmd (codes "si") ≡ true))
      → Step cmd running loaded

-- What holds of the state behind a command that comes back.
abbrev pub Behind : {k : Kernel} {A : Type 0} → (Phase → Type 0) → Outcome k A → Type 0
Behind P (done a s) = P s.phase
Behind P (exited s) = Unit
Behind P (fault why) = Unit
Behind P blocked = Unit

-- From one state, `f` comes to those with `P`.
pub record Leads {k : Kernel} {A : Type 0} (p : Phase) (f : M k A) (P : Phase → Type 0)
    : Type 0 where
  pub leads : (s : Sdb k) → s.phase ≡ p → Behind P (f s)

-- The state stays as it is.
pub record Stays {k : Kernel} {A : Type 0} (f : M k A) : Type 0 where
  pub remains : (s : Sdb k) → Behind (λ p. p ≡ s.phase) (f s)

module _ {k : Kernel} where
  Behind-bind :
      {A B : Type 0} (P Q : Phase → Type 0) (o : Outcome k A) (g : A → M k B)
      → Behind P o
      → ((a : A) (s : Sdb k) → P s.phase → Behind Q (g a s))
      → Behind Q (elim o [
        | done a s' ↦ g a s'
        | exited s' ↦ exited s'
        | fault why ↦ fault why
        | blocked ↦ blocked
      ])
  Behind-bind P Q (done a s) g h p = p a s h
  Behind-bind P Q (exited s) g h p = tt
  Behind-bind P Q (fault why) g h p = tt
  Behind-bind P Q blocked g h p = tt

  Behind-map :
      {A : Type 0} (P Q : Phase → Type 0) (o : Outcome k A)
      → ((p : Phase) → P p → Q p)
      → Behind P o
      → Behind Q o
  Behind-map P Q (done a s) f h = f s.phase h
  Behind-map P Q (exited s) f h = tt
  Behind-map P Q (fault why) f h = tt
  Behind-map P Q blocked f h = tt

  pub bind_same :
      {A B : Type 0} {f : M k A} {g : A → M k B}
      → Stays f
      → ((a : A) → Stays (g a))
      → Stays (f >>= g)
  bind_same {f = f} {g = g} p q = record {
    remains = λ s.
        Behind-bind (λ x. x ≡ s.phase) (λ x. x ≡ s.phase) (f s) g (p.remains s)
          (λ a t e.
            Behind-map (λ x. x ≡ t.phase) (λ x. x ≡ s.phase) (g a t) (λ x d. d ∙ e)
              ((q a).remains t));
  }

  pub next_same : {A B : Type 0} {f : M k A} {g : M k B} → Stays f → Stays g → Stays (f >> g)
  next_same p q = bind_same p (λ a. q)

  pub choose_same :
      {A : Type 0} (b : Bool) {f g : M k A} → Stays f → Stays g → Stays (if b then f else g)
  choose_same true p q = p
  choose_same false p q = q

  pub same : {A : Type 0} (f : M k A) → ((s : Sdb k) → Behind (λ p. p ≡ s.phase) (f s)) → Stays f
  same f h = record { remains = h }

  -- Before and behind what stays.
  pub stays_then :
      {A B : Type 0} {p : Phase} {P : Phase → Type 0} {f : M k A} {g : A → M k B}
      → Stays f
      → ((a : A) → Leads p (g a) P)
      → Leads p (f >>= g) P
  stays_then {p = p} {P = P} {f = f} {g = g} h q = record {
    leads = λ s e.
        Behind-bind (λ x. x ≡ s.phase) P (f s) g (h.remains s) (λ a t d. (q a).leads t (d ∙ e));
  }

  pub then_stays :
      {A B : Type 0} {p : Phase} {P : Phase → Type 0} {f : M k A} {g : A → M k B}
      → Leads p f P
      → ((a : A) → Stays (g a))
      → Leads p (f >>= g) P
  then_stays {p = p} {P = P} {f = f} {g = g} h q = record {
    leads = λ s e. Behind-bind P P (f s) g (h.leads s e) (λ a t d.
        Behind-map (λ x. x ≡ t.phase) P (g a t) (λ x c. subst P (sym c) d) ((q a).remains t));
  }

  pub get-Stays : Stays {k = k} get
  get-Stays = same get (λ s. refl)

  pub pure-Stays : {A : Type 0} (a : A) → Stays {k = k} (pure a)
  pure-Stays a = same (pure a) (λ s. refl)

  pub say-Stays : (line : List Item) → Stays {k = k} (say line)
  say-Stays line = same (say line) (λ s. refl)

  pub set_world-Stays : (w : k.World) → Stays {k = k} (set_world w)
  set_world-Stays w = same (set_world w) (λ s. refl)

  or_error-Behind :
      {A : Type 0} (func : String) (o : Option A) (s : Sdb k)
      → Behind (λ p. p ≡ s.phase) (or_error func o s)
  or_error-Behind func none s = tt
  or_error-Behind func (some a) s = refl

  pub or_error-Stays : {A : Type 0} (func : String) (o : Option A) → Stays {k = k} (or_error func o)
  or_error-Stays func o = same (or_error func o) (or_error-Behind func o)

  pub await-Stays : (pid : ℕ) (w : k.World) → Stays {k = k} (await pid w)
  unfolding await
  await-Stays pid w =
      choose_same (k.returns pid w) (or_error-Stays "waitpid" (k.wait pid w)) (same _ (λ s. tt))

  pub poke_text-Stays : (func : String) (addr word : ℕ) → Stays {k = k} (poke_text func addr word)
  unfolding poke_text
  poke_text-Stays func addr word =
      bind_same get-Stays (λ s. bind_same (or_error-Stays _ _) (λ w. set_world-Stays w))

  pub get_registers-Stays : Stays {k = k} get_registers
  get_registers-Stays = bind_same get-Stays (λ s. or_error-Stays _ _)

  pub set_registers-Stays : (regs : Regs) → Stays {k = k} (set_registers regs)
  set_registers-Stays regs =
      bind_same get-Stays (λ s. bind_same (or_error-Stays _ _) (λ w. set_world-Stays w))
