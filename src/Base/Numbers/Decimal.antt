-- ===== src/Base/Numbers/Decimal.antt =====
-- That `atoi` reads what "%d" prints.
use nctu_unix.Base.{
  ℕ, zero, suc, ◌+◌, ◌*◌, ◌/◌, ◌%◌, ◌<◌, ◌≡◌, refl, ap, sym, ◌∙◌, inl, inr, false, ◌==◌, lt→ltb,
  List, [], ◌∷◌, some, pos, neg, arith, Bool-cases,
}
use nctu_unix.Base.Numbers.{
  is_space, digit_value, drop_spaces, leading, signed_number, atoi, digits, decimal,
}

digit_value_lem : (d : ℕ) → d < 10 → digit_value (d + b'0') ≡ some d
digit_value_lem d h = ground (arith, h)

leading_digit :
    (acc d : ℕ) (text : List ℕ)
    → d < 10
    → leading 10 acc ((d + b'0') ∷ text) ≡ leading 10 (acc * 10 + d) text
unfolding leading
leading_digit acc d text h = rw (leading, digit_value_lem d h, lt→ltb d 10 h) refl

leading-digits :
    (fuel n : ℕ) (text : List ℕ) → n < fuel → leading 10 0 (digits fuel n text) ≡ leading 10 n text
unfolding digits
leading-digits zero n text h = absurd (omega (arith, h))
leading-digits (suc fuel) n text h = elim (Bool-cases (n / 10 == 0)) [
  | inl z ↦
      rw (digits, z)
        (leading_digit 0 (n % 10) text (omega arith)
          ∙ ap (λ (m : ℕ). leading 10 m text) (ground (arith, z)))
  | inr z ↦
      rw (digits, z)
        (leading-digits fuel (n / 10) ((n % 10 + b'0') ∷ text) (ground (arith, z, h))
          ∙ leading_digit (n / 10) (n % 10) text (omega arith)
          ∙ ap (λ (m : ℕ). leading 10 m text) (omega arith))
]

first_digit :
    (fuel n : ℕ) (text : List ℕ)
    → n < fuel
    → (d : ℕ) × (rest : List ℕ) × (d < 10) × (digits fuel n text ≡ (d + b'0') ∷ rest)
unfolding digits
first_digit zero n text h = absurd (omega (arith, h))
first_digit (suc fuel) n text h = elim (Bool-cases (n / 10 == 0)) [
  | inl z ↦ (n % 10, text, omega arith, rw (digits, z) refl)
  | inr z ↦
      let (d, rest, small, e) =
        first_digit fuel (n / 10) ((n % 10 + b'0') ∷ text) (ground (arith, z, h)) in
      (d, rest, small, rw (digits, z) e)
]

not_space : (d : ℕ) → d < 10 → is_space (d + b'0') ≡ false
not_space d h = ground (arith, h)

signed_digit :
    (d : ℕ) (rest : List ℕ)
    → d < 10
    → signed_number ((d + b'0') ∷ rest) ≡ pos (leading 10 0 ((d + b'0') ∷ rest))
unfolding signed_number
signed_digit d rest h = elim (Bool-cases (d + b'0' == b'-')) [
  | inl m ↦ absurd (ground (arith, m))
  | inr m ↦ elim (Bool-cases (d + b'0' == b'+')) [
    | inl p ↦ absurd (ground (arith, p))
    | inr p ↦ rw (signed_number, m, p) refl
  ]
]

atoi_digit :
    (d : ℕ) (rest : List ℕ)
    → d < 10
    → atoi ((d + b'0') ∷ rest) ≡ pos (leading 10 0 ((d + b'0') ∷ rest))
unfolding atoi drop_spaces
atoi_digit d rest h = rw (atoi, drop_spaces, not_space d h) (signed_digit d rest h)

leading-decimal : (n : ℕ) → leading 10 0 (decimal n) ≡ n
unfolding decimal leading
leading-decimal n = leading-digits (suc n) n [] (omega arith)

-- `atoi` reads back what "%d" prints.
pub atoi-decimal : (n : ℕ) → atoi (decimal n) ≡ pos n
unfolding decimal
atoi-decimal n =
    let (d, rest, small, e) = first_digit (suc n) n [] (omega arith) in
    ap atoi e
    ∙ atoi_digit d rest small
    ∙ ap (λ (t : List ℕ). pos (leading 10 0 t)) (sym e)
    ∙ ap pos (leading-decimal n)

pub atoi_minus : (n : ℕ) → atoi (b'-' ∷ decimal n) ≡ neg (pos n)
unfolding atoi drop_spaces signed_number
atoi_minus n = ap (λ (m : ℕ). neg (pos m)) (leading-decimal n)
