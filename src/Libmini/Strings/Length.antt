-- ===== src/Libmini/Strings/Length.antt =====
-- `strlen` finds the first NUL, and the fuel that it takes.
use nctu_unix.Base.{
  ℕ, zero, suc, ◌+◌, ◌<◌, ◌≡◌, ◌≢◌, ◌↔◌, ◌∙◌, arith, ◌==◌, ==_iff, ==_false, some, List, [], ◌∷◌,
  length, Bool-cases, inl, inr, ap, sym,
}
use nctu_unix.Base.Memory.{Memory, StringAt}
use nctu_unix.Libmini.Strings.{strlen, strlen_loop}

-- The first NUL from `s` on stands n bytes behind it.
pub record IsFirstNul (m : Memory) (s n : ℕ) : Type 0 where
  pub ends : m (s + n) ≡ 0
  pub before : (i : ℕ) → i < n → m (s + i) ≢ 0

loop_stops :
    (fuel : ℕ) (m : Memory) (s count : ℕ) → m s ≡ 0 → strlen_loop (suc fuel) m s count ≡ some count
unfolding strlen_loop
loop_stops fuel m s count h = rw ((==_iff (m s) 0).1 h, strlen_loop)

loop_goes_on :
    (fuel : ℕ) (m : Memory) (s count : ℕ)
    → m s ≢ 0
    → strlen_loop (suc fuel) m s count ≡ strlen_loop fuel m (s + 1) (count + 1)
unfolding strlen_loop
loop_goes_on fuel m s count h = rw (==_false (m s) 0 h, strlen_loop)

at_shift : (m : Memory) (s n : ℕ) → m (s + 1 + n) ≡ m (s + suc n)
at_shift m s n = ap m (omega arith)

loop_finds :
    (fuel : ℕ) (m : Memory) (s count n : ℕ)
    → n < fuel
    → IsFirstNul m s n
    → strlen_loop fuel m s count ≡ some (count + n)
loop_finds zero m s count n l h = absurd (omega arith)
loop_finds (suc fuel) m s count zero l h =
    loop_stops fuel m s count (ap m (omega arith) ∙ h.ends) ∙ ap some (omega arith)
loop_finds (suc fuel) m s count (suc n) l h =
    loop_goes_on fuel m s count (λ e. h.before 0 (omega arith) (ap m (omega arith) ∙ e))
    ∙ loop_finds fuel m (s + 1) (count + 1) n (omega arith) rest
    ∙ ap some (omega arith)
  where
    rest : IsFirstNul m (s + 1) n
    rest = record {
      ends = at_shift m s n ∙ h.ends;
      before = λ i p e. h.before (suc i) (omega arith) (ap m (omega arith) ∙ e);
    }

before-suc :
    (m : Memory) (s n : ℕ) → m s ≢ 0 → IsFirstNul m (s + 1) n → (i : ℕ) → i < suc n → m (s + i) ≢ 0
before-suc m s n ne first zero l e = ne (ap m (omega arith) ∙ e)
before-suc m s n ne first (suc i) l e = first.before i (omega arith) (at_shift m s i ∙ e)

IsFirstNul-suc : (m : Memory) (s n : ℕ) → m s ≢ 0 → IsFirstNul m (s + 1) n → IsFirstNul m s (suc n)
IsFirstNul-suc m s n ne first = record {
  ends = sym (at_shift m s n) ∙ first.ends;
  before = before-suc m s n ne first;
}

loop_found :
    (fuel : ℕ) (m : Memory) (s count r : ℕ)
    → strlen_loop fuel m s count ≡ some r
    → (n : ℕ) × (r ≡ count + n) × (n < fuel) × IsFirstNul m s n
unfolding strlen_loop
loop_found zero m s count r h = cc
loop_found (suc fuel) m s count r h = elim (Bool-cases (m s == 0)) [
  | inl end ↦ (
    zero,
    ground (arith, loop_stops fuel m s count),
    omega arith,
    record { ends = ground arith; before = λ i p. absurd (omega arith) },
  )
  | inr more ↦
      let (n, e, l, first) =
        loop_found fuel m (s + 1) (count + 1) r
          (sym (loop_goes_on fuel m s count (λ e. ground arith)) ∙ h) in
      (suc n, omega arith, omega arith, IsFirstNul-suc m s n (λ e. ground arith) first)
]

-- With fuel f, `strlen` answers n exactly when n is less than f and the first NUL from `s` on
-- stands n bytes behind it; so enough fuel always gives the length of a terminated string.
pub strlen_iff :
    (fuel : ℕ) (m : Memory) (s n : ℕ) → (strlen fuel m s ≡ some n) ↔ ((n < fuel) × IsFirstNul m s n)
unfolding strlen
strlen_iff fuel m s n = (λ h. found h, λ h. loop_finds fuel m s 0 n h.0 h.1 ∙ ap some (omega arith))
  where
    found : strlen_loop fuel m s 0 ≡ some n → (n < fuel) × IsFirstNul m s n
    found h =
        let (j, e, l, first) = loop_found fuel m s 0 n h in
        let same : n ≡ j = omega arith in rw same (l, first)

pub StringAt-IsFirstNul :
    (m : Memory) (p : ℕ) (s : List ℕ) → StringAt m p s → IsFirstNul m p (length s)
StringAt-IsFirstNul m p [] h = record {
  ends = ap m (omega arith) ∙ h;
  before = λ i l. absurd (omega arith);
}
StringAt-IsFirstNul m p (c ∷ s) h =
    IsFirstNul-suc m p (length s) (λ e. h.1 (sym h.0 ∙ e)) (StringAt-IsFirstNul m (p + 1) s h.2)

pub strlen-StringAt :
    (fuel : ℕ) (m : Memory) (p : ℕ) (s : List ℕ)
    → StringAt m p s
    → length s < fuel
    → strlen fuel m p ≡ some (length s)
strlen-StringAt fuel m p s h l = (strlen_iff fuel m p (length s)).1 (l, StringAt-IsFirstNul m p s h)
