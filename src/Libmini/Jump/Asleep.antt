-- ===== src/Libmini/Jump/Asleep.antt =====
-- What sleep of hw3/libmini64.asm asks for and returns.
use nctu_unix.Base.{
  ℕ, ◌+◌, ◌^◌, ◌<◌, ◌≡◌, ◌≢◌, refl, ap, ◌⊎◌, inl, inr, ◌∷◌, ℤ, pos, negsuc, arith, Bool-cases, ◌==◌,
  ◌∙◌,
}
use nctu_unix.Base.Memory.{Memory, load64, store64, load64-store64, load64-store64_apart}
use nctu_unix.Libmini.Machine.{Kernel, Machine, sys_nanosleep, answer, ◌>>=◌, ◌>>◌}
use nctu_unix.Libmini.Jump.{sleep}

module _ (k : Kernel) (req seconds : ℕ) (m : Machine) where
  abbrev pub asked : Machine
  asked = record m { memory = store64 (store64 m.memory req seconds) (req + 8) 0 }

  -- What nanosleep answers, and the memory that it leaves.
  abbrev pub nanosleep_answer : ℤ
  nanosleep_answer = answer k asked (sys_nanosleep req (req + 16))

  abbrev pub after : Memory
  after = (k m.calls (sys_nanosleep req (req + 16)) asked.memory).1

  -- The result for an answer: the answer; what remains, behind EINTR; 0 for any other error.
  abbrev pub Slept : ℤ → ℤ → Type 0
  Slept a r =
      ((n : ℕ) × (a ≡ pos n) × (r ≡ pos n))
      ⊎ (((a ≡ negsuc 3) × (r ≡ pos (load64 after (req + 16))))
          ⊎ ((n : ℕ) × (a ≡ negsuc n) × (n ≢ 3) × (r ≡ pos 0)))

  sleep-Slept : (a : ℤ) → nanosleep_answer ≡ a → Slept a (sleep k req seconds m).0
  unfolding sleep
  sleep-Slept (pos n) e = inl (n, refl, rw (sleep, ◌>>=◌, ◌>>◌, e) refl)
  sleep-Slept (negsuc n) e = elim (Bool-cases (n == 3)) [
    | inl f ↦ inr (inl (ap negsuc (ground (arith, f)), rw (sleep, ◌>>=◌, ◌>>◌, e, f) refl))
    | inr f ↦ inr (inr (n, refl, ground (arith, f), rw (sleep, ◌>>=◌, ◌>>◌, e, f) refl))
  ]

  -- sleep makes the one call of nanosleep, with a request that holds the seconds and no
  -- nanoseconds; errno stays as it was. It returns the answer if that is no error, the seconds that
  -- remain if it is EINTR, and 0 if it is another error.
  pub sleep_lem :
      seconds < 2 ^ 64
      → (load64 asked.memory req ≡ seconds)
        × (load64 asked.memory (req + 8) ≡ 0)
        × ((sleep k req seconds m).1.calls
            ≡ record { call = sys_nanosleep req (req + 16); seen = asked.memory } ∷ m.calls)
        × ((sleep k req seconds m).1.errno ≡ m.errno)
        × Slept nanosleep_answer (sleep k req seconds m).0
  unfolding sleep
  sleep_lem h = (
    load64-store64_apart (store64 m.memory req seconds) (req + 8) 0 req (inl (omega arith))
        ∙ load64-store64 m.memory req seconds h,
    load64-store64 (store64 m.memory req seconds) (req + 8) 0 (omega arith),
    refl,
    refl,
    sleep-Slept nanosleep_answer refl,
  )
