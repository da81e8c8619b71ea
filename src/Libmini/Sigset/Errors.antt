-- ===== src/Libmini/Sigset/Errors.antt =====
-- The errors of the operations on signal sets of hw3/libmini.c, and what they leave alone.
use nctu_unix.Base.{
  ◌==◌, leb, inl, inr, Bool-cases, arith, ℕ, ◌+◌, ◌<◌, ◌≤◌, ◌≡◌, refl, true, false, ◌⊎◌, ℤ, pos,
  negsuc,
}
use nctu_unix.Base.Memory.{store64_outside}
use nctu_unix.Libmini.Machine.{Machine}
use nctu_unix.Libmini.Sigset.{
  bad_argument, einval, sigemptyset, sigfillset, sigaddset, sigdelset, sigismember,
}

-- The result of a refused call.
abbrev pub refused : Machine → ℤ × Machine
refused m = (negsuc 0, record m { errno = einval })

-- The set is NULL, or the number is none of a signal.
abbrev pub IsSignal : ℤ → Type 0
IsSignal (pos n) = (1 ≤ n) × (n ≤ 64)
IsSignal (negsuc n) = ⊥

abbrev pub IsInvalid : ℕ → ℤ → Type 0
IsInvalid set signo = (set ≡ 0) ⊎ (¬ IsSignal signo)

out_of_range : (n : ℕ) → ¬ ((1 ≤ n) × (n ≤ 64)) → (n ≡ 0) ⊎ (65 ≤ n)
out_of_range n h = elim (Bool-cases (leb 65 n)) [
  | inl e ↦ inr (ground (arith, e))
  | inr e ↦ elim (Bool-cases (n == 0)) [
    | inl z ↦ inl (ground (arith, z))
    | inr p ↦ absurd (h (ground (arith, p), ground (arith, e)))
  ]
]

bad_invalid : (set : ℕ) (signo : ℤ) → IsInvalid set signo → bad_argument set signo ≡ true
bad_invalid set signo (inl e) = rw e refl
bad_invalid set (negsuc n) (inr h) = ground arith
bad_invalid set (pos n) (inr h) = ground (arith, out_of_range n h)

-- With a NULL set, or a number that is not from 1 to 64, `sigaddset`, `sigdelset` and
-- `sigismember` return -1 with `errno` EINVAL and change nothing else; so do `sigemptyset` and
-- `sigfillset` at NULL.
pub sigset_refuses :
    (set : ℕ) (signo : ℤ) (m : Machine)
    → IsInvalid set signo
    → (sigaddset set signo m ≡ refused m)
      × (sigdelset set signo m ≡ refused m)
      × (sigismember set signo m ≡ refused m)
      × (sigemptyset 0 m ≡ refused m)
      × (sigfillset 0 m ≡ refused m)
unfolding sigaddset sigdelset sigismember sigemptyset sigfillset
sigset_refuses set signo m i = let h = bad_invalid set signo i in (rw h, rw h, rw h, refl, refl)

-- With a set that is there and a signal from 1 to 64, `sigaddset` and `sigdelset` return 0, leave
-- `errno` and every byte outside the eight of the set as they were, and `sigismember` changes
-- nothing at all.
pub sigset_frame :
    (set : ℕ) (signo : ℤ) (m : Machine) (b : ℕ)
    → bad_argument set signo ≡ false
    → (b < set) ⊎ (set + 8 ≤ b)
    → ((sigaddset set signo m).0 ≡ pos 0)
      × ((sigaddset set signo m).1.errno ≡ m.errno)
      × ((sigaddset set signo m).1.memory b ≡ m.memory b)
      × ((sigdelset set signo m).0 ≡ pos 0)
      × ((sigdelset set signo m).1.errno ≡ m.errno)
      × ((sigdelset set signo m).1.memory b ≡ m.memory b)
      × ((sigismember set signo m).1 ≡ m)
unfolding sigaddset sigdelset sigismember
sigset_frame set signo m b h out = (
  rw h,
  rw h,
  rw h (store64_outside m.memory set _ b out),
  rw h,
  rw h,
  rw h (store64_outside m.memory set _ b out),
  rw h,
)
