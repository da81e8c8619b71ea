-- ===== src/Lsof/Buffers.antt =====
-- How long the texts in the static buffers of hw1/hw1.c are.
use mathlib.Core.List.{reverse, reverse-cons}
use nctu_unix.Base.{
  ℕ, zero, suc, ◌-◌, ◌≤◌, ◌≡◌, refl, ap, true, inl, inr, ◌==◌, [], ◌∷◌, length, drop, length-append,
  arith, Bool-cases,
}
use nctu_unix.Lsof.Options.{Text}
use nctu_unix.Lsof.Process.{c_string, put_zero, overwrite, fits}
use nctu_unix.Lsof.Dirname.{
  drop_slashes, drop_name, parent_back, or_root, has_parent, dirname, cut_dirname,
}

length-reverse : (xs : Text) → length (reverse xs) ≡ length xs
length-reverse [] = refl
length-reverse (x ∷ xs) =
    rw (reverse-cons x xs, length-append (reverse xs) (x ∷ []), length-reverse xs) (omega arith)

drop_slashes_le : (xs : Text) → length (drop_slashes xs) ≤ length xs
drop_slashes_le [] = omega arith
drop_slashes_le (x ∷ xs) = elim (Bool-cases (x == 47)) [
  | inl e ↦ rw e (omega (arith, drop_slashes_le xs))
  | inr e ↦ rw e (omega arith)
]

drop_name_le : (xs : Text) → length (drop_name xs) ≤ length xs
drop_name_le [] = omega arith
drop_name_le (x ∷ xs) = elim (Bool-cases (x == 47)) [
  | inl e ↦ rw e (omega arith)
  | inr e ↦ rw e (omega (arith, drop_name_le xs))
]

parent_back_le : (path : Text) → length (parent_back path) ≤ length path
parent_back_le path = omega (
  arith,
  drop_slashes_le (drop_name (drop_slashes (reverse path))),
  drop_name_le (drop_slashes (reverse path)),
  drop_slashes_le (reverse path),
  length-reverse path,
)

or_root_le : (xs : Text) (n : ℕ) → length xs ≤ n → 1 ≤ n → length (or_root xs) ≤ n
or_root_le [] n h p = p
or_root_le (x ∷ xs) n h p = omega (arith, h, length-reverse (x ∷ xs))

dirname_le : (path : Text) (n : ℕ) → length path ≤ n → 1 ≤ n → length (dirname path) ≤ n
unfolding dirname
dirname_le path n h p = elim (Bool-cases (has_parent path)) [
  | inl e ↦
      rw (dirname, e) (or_root_le (parent_back path) n (omega (arith, h, parent_back_le path)) p)
  | inr e ↦ rw (dirname, e) p
]

c_string_le : (buff : Text) → length (c_string buff) ≤ length buff
c_string_le [] = omega arith
c_string_le (c ∷ cs) = elim (Bool-cases (c == 0)) [
  | inl e ↦ rw e (omega arith)
  | inr e ↦ rw e (omega (arith, c_string_le cs))
]

length-put_zero : (i : ℕ) (buff : Text) → length (put_zero i buff) ≡ length buff
length-put_zero i [] = refl
length-put_zero zero (c ∷ cs) = refl
length-put_zero (suc i) (c ∷ cs) = ap suc (length-put_zero i cs)

length-cut_dirname : (buff : Text) → length (cut_dirname buff) ≡ length buff
unfolding cut_dirname
length-cut_dirname buff = elim (Bool-cases (has_parent (c_string buff))) [
  | inl e ↦ rw (cut_dirname, e) (length-put_zero _ buff)
  | inr e ↦ rw (cut_dirname, e) refl
]

drop_le : (n : ℕ) (xs : Text) → length (drop n xs) ≤ length xs - n
drop_le zero xs = omega arith
drop_le (suc n) [] = omega arith
drop_le (suc n) (x ∷ xs) = omega (arith, drop_le n xs)

overwrite_le :
    (link buff : Text) (n : ℕ)
    → length link ≤ n
    → length buff ≤ n
    → length (overwrite link buff) ≤ n
overwrite_le link buff n h p =
    omega (arith, h, p, length-append link (drop (length link) buff), drop_le (length link) buff)

-- A target of fewer than BUF_MAX characters, in a buffer that holds no more, is one whose
-- `dirname` can be copied; so it stays.
pub target_fits :
    (link buff : Text)
    → length link ≤ 1023
    → length buff ≤ 1023
    → fits (dirname (c_string (overwrite link buff))) ≡ true
target_fits link buff h p = ground (
  arith,
  dirname_le (c_string (overwrite link buff)) 1023
      (omega (arith, c_string_le (overwrite link buff), overwrite_le link buff 1023 h p))
      (omega arith),
)

pub buffer_stays :
    (link buff : Text)
    → length link ≤ 1023
    → length buff ≤ 1023
    → length (put_zero (length link) (cut_dirname (overwrite link buff))) ≤ 1023
buffer_stays link buff h p = omega (
  arith,
  length-put_zero (length link) (cut_dirname (overwrite link buff)),
  length-cut_dirname (overwrite link buff),
  overwrite_le link buff 1023 h p,
)
