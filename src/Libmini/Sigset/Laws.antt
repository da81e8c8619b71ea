-- ===== src/Libmini/Sigset/Laws.antt =====
-- The signal sets of hw3/libmini.c behave as finite sets of the signals 1 to 64.
use Prim.Native.Nat.{ℕ, suc, ◌+◌, ◌-◌, ◌^◌, ◌<◌, ◌≤◌}
use mathlib.Core.Path.{ap₂}
use native.Mathlib.Nat.{le_refl}
use nctu_unix.Base.{bit_and, bit_or, ◌≡◌, ◌≢◌, ◌∙◌, ap, sym, ==_false, arith, false, ◌==◌}
use nctu_unix.Base.{if◌then◌else◌, ℤ, pos, eq_ℤ}
use nctu_unix.Base.Bits.{bit, bit-zero, bit-complement, bit_or-lt, bit_and-le}
use nctu_unix.Base.Memory.{
  Memory, load, load_ext, load64, store64, load64-store64, load64-lt, IsBytes,
}
use nctu_unix.Libmini.Machine.{Machine}
use nctu_unix.Libmini.Strings.{memset, low8}
use nctu_unix.Libmini.Strings.Fill.{memset_fills}
use nctu_unix.Libmini.Sigset.{
  bad_argument, sigmask, complement64, sigemptyset, sigfillset, sigaddset, sigdelset, sigismember,
}
use nctu_unix.Libmini.Sigset.Word.{IsGood, good, has, pow_lt, tested, has-add, has-del}

mask_of_good : (set : ℕ) (signo : ℤ) (g : IsGood set signo) → sigmask signo ≡ 2 ^ g.index
mask_of_good set signo g = ap sigmask g.signal_of

module _ (set : ℕ) (signo : ℤ) (valid : bad_argument set signo ≡ false) where
  abbrev g : IsGood set signo
  g = good set signo valid

  member_value : (m : Machine) → sigismember set signo m ≡ (has (load64 m.memory set) g.index, m)
  unfolding sigismember
  member_value m =
      rw valid (simp (mask_of_good set signo g) (λ i. (tested (load64 m.memory set) g.index i, m)))

  add_memory :
      (m : Machine)
      → sigaddset set signo m ≡ (
        pos 0,
        record m { memory = store64 m.memory set (bit_or (load64 m.memory set) (2 ^ g.index)) },
      )
  unfolding sigaddset
  add_memory m = rw valid (simp (mask_of_good set signo g))

  del_memory :
      (m : Machine)
      → sigdelset set signo m ≡ (
        pos 0,
        record m {
          memory =
              store64 m.memory set (bit_and (load64 m.memory set) (complement64 (2 ^ g.index)));
        },
      )
  unfolding sigdelset
  del_memory m = rw valid (simp (mask_of_good set signo g))

  -- Membership after the word of the set has become v.
  after_store :
      (m : Machine) (v : ℕ)
      → v < 2 ^ 64
      → (sigismember set signo (record m { memory = store64 m.memory set v })).0 ≡ has v g.index
  after_store m v h =
      ap (λ (r : ℤ × Machine). r.0) (member_value (record m { memory = store64 m.memory set v }))
      ∙ ap (λ (w : ℕ). has w g.index) (load64-store64 m.memory set v h)

suc_eq : (a b : ℕ) → (suc a == suc b) ≡ (a == b)
suc_eq a b = ground arith

module _ (set : ℕ) (s t : ℤ) (m : Machine) (bytes : IsBytes m.memory)
    (valid_s : bad_argument set s ≡ false) (valid_t : bad_argument set t ≡ false) where
  abbrev gs : IsGood set s
  gs = good set s valid_s

  abbrev gt : IsGood set t
  gt = good set t valid_t

  same : eq_ℤ s t ≡ (gs.index == gt.index)
  same = ap₂ eq_ℤ gs.signal_of gt.signal_of ∙ suc_eq gs.index gt.index

  word_lt : load64 m.memory set < 2 ^ 64
  word_lt = load64-lt m.memory set bytes

  with_same :
      (r : ℤ)
      → (if gs.index == gt.index then r else has (load64 m.memory set) gt.index)
        ≡ (if eq_ℤ s t then r else (sigismember set t m).0)
  with_same r = λ i.
      if sym same i then r else ap (λ (p : ℤ × Machine). p.0) (sym (member_value set t valid_t m)) i

  -- For signals s and t from 1 to 64 and a set that is not NULL: after `sigaddset` of s,
  -- `sigismember` answers 1 for s and what it answered before for every other t.
  pub sigismember-sigaddset :
      (sigismember set t (sigaddset set s m).1).0
      ≡ (if eq_ℤ s t then pos 1 else (sigismember set t m).0)
  sigismember-sigaddset =
      ap (λ (r : ℤ × Machine). (sigismember set t r.1).0) (add_memory set s valid_s m)
      ∙ after_store set t valid_t m (bit_or (load64 m.memory set) (2 ^ gs.index))
          (bit_or-lt 64 (load64 m.memory set) (2 ^ gs.index) word_lt (pow_lt gs.index gs.in_range))
      ∙ has-add (load64 m.memory set) gs.index gt.index
      ∙ with_same (pos 1)

  -- For signals s and t from 1 to 64 and a set that is not NULL: after `sigdelset` of s,
  -- `sigismember` answers 0 for s and what it answered before for every other t.
  pub sigismember-sigdelset :
      (sigismember set t (sigdelset set s m).1).0
      ≡ (if eq_ℤ s t then pos 0 else (sigismember set t m).0)
  sigismember-sigdelset =
      let v = load64 m.memory set in
      let c = complement64 (2 ^ gs.index) in
      ap (λ (r : ℤ × Machine). (sigismember set t r.1).0) (del_memory set s valid_s m)
      ∙ after_store set t valid_t m (bit_and v c)
          (omega (arith, word_lt, bit_and-le v v c (le_refl v)))
      ∙ has-del v gs.index gt.index gs.in_range gt.in_range
      ∙ with_same (pos 0)

-- A word of equal bytes.
load_const :
    (m : Memory) (a c : ℕ)
    → ((b : ℕ) → a ≤ b → b < a + 8 → m b ≡ c)
    → load64 m a ≡ load64 (λ _. c) a
unfolding load64
load_const m a c h = load_ext 8 m (λ _. c) a h

pub empty_word : (set : ℕ) (m : Machine) → load64 (memset set (pos 0) (pos 8) m).1.memory set ≡ 0
unfolding load64 load
empty_word set m =
    load_const (memset set (pos 0) (pos 8) m).1.memory set 0
      (λ b p q. (memset_fills set (pos 0) (pos 8) m).1 b ∙ ground arith)

bit_ones : (j : ℕ) → j < 64 → bit (2 ^ 64 - 1) j ≡ 1
bit_ones j h = omega (arith, bit-complement 64 0 j (omega arith) h, bit-zero j)

module _ (set : ℕ) (t : ℤ) (m : Machine) (valid : bad_argument set t ≡ false) where
  abbrev gf : IsGood set t
  gf = good set t valid

  not_null : (set == 0) ≡ false
  not_null = ==_false set 0 gf.present

  filled : (val : ℤ) → load64 (memset set val (pos 8) m).1.memory set ≡ load64 (λ _. low8 val) set
  filled val =
      load_const (memset set val (pos 8) m).1.memory set (low8 val)
        (λ b p q. (memset_fills set val (pos 8) m).1 b ∙ ground arith)

  -- In a set made by `sigemptyset` no signal from 1 to 64 is a member; in one made by
  -- `sigfillset` every one is.
  pub sigismember_of_made :
      ((sigismember set t (sigemptyset set m).1).0 ≡ pos 0)
      × ((sigismember set t (sigfillset set m).1).0 ≡ pos 1)
  unfolding sigemptyset sigfillset load64 load
  sigismember_of_made = (
    rw not_null (
        ap (λ (r : ℤ × Machine). r.0) (member_value set t valid (memset set (pos 0) (pos 8) m).1)
        ∙ ap (λ (v : ℕ). has v gf.index) (filled (pos 0))
        ∙ ground (arith, bit-zero gf.index)),
    rw not_null (
        ap (λ (r : ℤ × Machine). r.0) (member_value set t valid (memset set (pos 0xff) (pos 8) m).1)
        ∙ ap (λ (v : ℕ). has v gf.index) (filled (pos 0xff))
        ∙ ground (arith, bit_ones gf.index gf.in_range)),
  )

pub sigemptyset_made :
    (set : ℕ) (m : Machine)
    → set ≢ 0
    → sigemptyset set m ≡ (pos 0, (memset set (pos 0) (pos 8) m).1)
unfolding sigemptyset
sigemptyset_made set m h = rw (==_false set 0 h)

pub sigaddset_adds :
    (set : ℕ) (signo : ℤ) (m : Machine)
    → bad_argument set signo ≡ false
    → sigaddset set signo m ≡ (
      pos 0,
      record m { memory = store64 m.memory set (bit_or (load64 m.memory set) (sigmask signo)) },
    )
unfolding sigaddset
sigaddset_adds set signo m h = rw h
