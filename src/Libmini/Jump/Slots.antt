-- ===== src/Libmini/Jump/Slots.antt =====
-- Words that setjmp of hw3/libmini64.asm puts into its buffer, and how they are read again.
use nctu_unix.Base.{
  ℕ, ◌+◌, ◌^◌, ◌≤◌, ◌<◌, ◌≡◌, refl, ap, ◌∙◌, ◌⊎◌, inl, inr, ◌==◌, if◌then◌else◌, List, [], ◌∷◌,
  ◌++◌, arith, Bool-cases,
}
use nctu_unix.Base.Memory.{Memory, load64, store64, load64-store64, load64-store64_apart}
use nctu_unix.Libmini.Jump.{slot, put_slots}

-- The last value that was put into a slot.
abbrev pub last_put : List (ℕ × ℕ) → ℕ → ℕ → ℕ
last_put [] i old = old
last_put ((j, v) ∷ slots) i old = last_put slots i (if i == j then v else old)

-- All values are words, and all places lie in the buffer.
abbrev pub AllWords : List (ℕ × ℕ) → Type 0
AllWords [] = Unit
AllWords ((j, v) ∷ slots) = (v < 2 ^ 64) × (j < 9) × AllWords slots

one_put :
    (m : Memory) (env i j v : ℕ)
    → v < 2 ^ 64
    → load64 (store64 m (slot env j) v) (slot env i) ≡ (if i == j then v else load64 m (slot env i))
one_put m env i j v h = elim (Bool-cases (i == j)) [
  | inl e ↦ rw e (
      ap (λ (n : ℕ). load64 (store64 m (slot env j) v) (slot env n)) (ground (arith, e))
      ∙ load64-store64 m (slot env j) v h)
  | inr e ↦ rw e (load64-store64_apart m (slot env j) v (slot env i) (ground (arith, e)))
]

pub load64-put_slots :
    (m : Memory) (env i : ℕ) (slots : List (ℕ × ℕ))
    → AllWords slots
    → load64 (put_slots env slots m) (slot env i) ≡ last_put slots i (load64 m (slot env i))
load64-put_slots m env i [] h = refl
load64-put_slots m env i ((j, v) ∷ slots) (small, at, h) =
    load64-put_slots (store64 m (slot env j) v) env i slots h
    ∙ ap (last_put slots i) (one_put m env i j v small)

-- A word that no slot touches.
pub beside :
    (m : Memory) (env a : ℕ) (slots : List (ℕ × ℕ))
    → AllWords slots
    → (env + 72 ≤ a) ⊎ (a + 8 ≤ env)
    → load64 (put_slots env slots m) a ≡ load64 m a
beside m env a [] w h = refl
beside m env a ((j, v) ∷ slots) w h =
    beside (store64 m (slot env j) v) env a slots w.2 h
    ∙ load64-store64_apart m (slot env j) v a (omega (arith, h, w.1))

pub AllWords-append :
    (slots : List (ℕ × ℕ)) (ret : ℕ)
    → AllWords slots
    → ret < 2 ^ 64
    → AllWords (slots ++ ((7, ret) ∷ []))
AllWords-append [] ret w h = (h, omega arith, tt)
AllWords-append ((j, v) ∷ slots) ret (small, at, w) h = (small, at, AllWords-append slots ret w h)
