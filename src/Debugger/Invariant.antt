-- ===== src/Debugger/Invariant.antt =====
-- Commands of sdb (hw4/hw4.cpp) that keep the invariant of its state, and how they compose.
use Prim.Native.String.{String}
use nctu_unix.Base.{ℕ, Bool, true, false, List, Option, none, some, if◌then◌else◌}
use nctu_unix.Debugger.State.{
  Kernel, Sdb, M, Outcome, done, exited, fault, blocked, await, pure, ◌>>=◌, ◌>>◌, get, or_error,
  set_world, say, Regs, Phase, nonload, loaded, running, Item, get_registers, set_registers,
}
use nctu_unix.Debugger.Breakpoints.{poke_text}
use nctu_unix.Debugger.Breakpoints.Valid.{IsValid, Keeps}

pub record Preserves {k : Kernel} {A : Type 0} (f : M k A) : Type 0 where
  pub keeps : (s : Sdb k) → IsValid s → Keeps (f s)

module _ {k : Kernel} where
  Keeps-bind :
      {A B : Type 0} (o : Outcome k A) (g : A → M k B)
      → Keeps o
      → ((a : A) → Preserves (g a))
      → Keeps (elim o [
        | done a s' ↦ g a s'
        | exited s' ↦ exited s'
        | fault why ↦ fault why
        | blocked ↦ blocked
      ])
  Keeps-bind (done a s) g h p = (p a).keeps s h
  Keeps-bind (exited s) g h p = tt
  Keeps-bind (fault why) g h p = h
  Keeps-bind blocked g h p = tt

  pub bind :
      {A B : Type 0} {f : M k A} {g : A → M k B}
      → Preserves f
      → ((a : A) → Preserves (g a))
      → Preserves (f >>= g)
  bind {f = f} {g = g} p q = record { keeps = λ s v. Keeps-bind (f s) g (p.keeps s v) q }

  pub next : {A B : Type 0} {f : M k A} {g : M k B} → Preserves f → Preserves g → Preserves (f >> g)
  next p q = bind p (λ _. q)

  pub choose :
      {A : Type 0} (b : Bool) {f g : M k A}
      → Preserves f
      → Preserves g
      → Preserves (if b then f else g)
  choose true p q = p
  choose false p q = q

  -- What leaves the state as it is, or as good as it was.
  pub harmless : {A : Type 0} (f : M k A) → ((s : Sdb k) → IsValid s → Keeps (f s)) → Preserves f
  harmless f h = record { keeps = h }

  pub get-Preserves : Preserves {k = k} get
  get-Preserves = harmless get (λ s v. v)

  pub pure-Preserves : {A : Type 0} (a : A) → Preserves {k = k} (pure a)
  pure-Preserves a = harmless (pure a) (λ s v. v)

  pub say-Preserves : (line : List Item) → Preserves {k = k} (say line)
  say-Preserves line = harmless (say line) (λ s v. v)

  pub set_world-Preserves : (w : k.World) → Preserves {k = k} (set_world w)
  set_world-Preserves w = harmless (set_world w) (λ s v. v)

  pub at_phase :
      (p : Phase) {f g h : M k (Unit {0})}
      → Preserves f
      → Preserves g
      → Preserves h
      → Preserves (elim p [ nonload ↦ f | loaded ↦ g | running ↦ h ])
  at_phase nonload p q r = p
  at_phase loaded p q r = q
  at_phase running p q r = r

  or_error-Keeps :
      {A : Type 0} (func : String) (o : Option A) (s : Sdb k)
      → IsValid s
      → Keeps (or_error func o s)
  or_error-Keeps func none s v = tt
  or_error-Keeps func (some a) s v = v

  pub or_error-Preserves :
      {A : Type 0} (func : String) (o : Option A) → Preserves {k = k} (or_error func o)
  or_error-Preserves func o = harmless (or_error func o) (or_error-Keeps func o)

  pub await-Preserves : (pid : ℕ) (w : k.World) → Preserves {k = k} (await pid w)
  unfolding await
  await-Preserves pid w =
      choose (k.returns pid w) (or_error-Preserves "waitpid" (k.wait pid w))
        (harmless _ (λ s v. tt))

  pub poke_text-Preserves :
      (func : String) (addr word : ℕ) → Preserves {k = k} (poke_text func addr word)
  unfolding poke_text
  poke_text-Preserves func addr word =
      bind get-Preserves (λ s. bind (or_error-Preserves _ _) (λ w. set_world-Preserves w))

  pub get_registers-Preserves : Preserves {k = k} get_registers
  get_registers-Preserves = bind get-Preserves (λ s. or_error-Preserves _ _)

  pub set_registers-Preserves : (regs : Regs) → Preserves {k = k} (set_registers regs)
  set_registers-Preserves regs =
      bind get-Preserves (λ s. bind (or_error-Preserves _ _) (λ w. set_world-Preserves w))
