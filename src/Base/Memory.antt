-- ===== src/Base/Memory.antt =====
-- A flat byte memory, with the little-endian words that C reads and writes in it.
use Prim.Native.Nat.{ℕ, zero, suc, ◌+◌, ◌*◌, ◌/◌, ◌%◌, ◌^◌, ◌≤◌, ◌<◌}
use mathlib.Core.Path.{◌≡◌, refl, ◌∙◌}
use mathlib.Core.Logic.{◌⊎◌, ◌≢◌, inl}
use mathlib.Core.List.{List, [], ◌∷◌}
use native.Mathlib.Nat.{pow-suc}
use native.Mathlib.Omega.{arith}
use nctu_unix.Base.Tests.{◌==◌, ==_false, if◌then◌else◌}

-- A byte at every address.
abbrev pub Memory : Type 0
Memory = ℕ → ℕ

abbrev pub update : Memory → ℕ → ℕ → Memory
update m a v b = if b == a then v else m b

pub update_self : (m : Memory) (a v : ℕ) → update m a v a ≡ v
update_self m a v = ground arith

pub update_ne : (m : Memory) (a v b : ℕ) → b ≢ a → update m a v b ≡ m b
update_ne m a v b h = rw (==_false b a h)

-- The n bytes from `a`, least significant first, as a number.
unfoldable pub load : ℕ → Memory → ℕ → ℕ
load zero m a = 0
load (suc n) m a = m a + 256 * load n m (a + 1)

unfoldable pub store : ℕ → Memory → ℕ → ℕ → Memory
store zero m a v = m
store (suc n) m a v = store n (update m a (v % 256)) (a + 1) (v / 256)

-- The bytes of C's `unsigned long`.
abbrev pub word_size : ℕ
word_size = 8

unfoldable pub load64 : Memory → ℕ → ℕ
load64 m a = load word_size m a

unfoldable pub store64 : Memory → ℕ → ℕ → Memory
store64 m a v = store word_size m a v

pub store_outside : (n : ℕ) (m : Memory) (a v b : ℕ) → (b < a) ⊎ (a + n ≤ b) → store n m a v b ≡ m b
unfolding store
store_outside zero m a v b h = refl
store_outside (suc n) m a v b h =
    store_outside n (update m a (v % 256)) (a + 1) (v / 256) b (omega arith)
    ∙ update_ne m a (v % 256) b (omega arith)

pub load_ext :
    (n : ℕ) (m m' : Memory) (a : ℕ)
    → ((b : ℕ) → a ≤ b → b < a + n → m b ≡ m' b)
    → load n m a ≡ load n m' a
unfolding load
load_ext zero m m' a h = refl
load_ext (suc n) m m' a h = omega (
  arith,
  h a (omega arith) (omega arith),
  load_ext n m m' (a + 1) (λ b p q. h b (omega arith) (omega arith)),
)

pub load-store_self : (n : ℕ) (m : Memory) (a v : ℕ) → v < 256 ^ n → load n (store n m a v) a ≡ v
unfolding load store
load-store_self zero m a v h = omega arith
load-store_self (suc n) m a v h = omega (
  arith,
  store_outside n (update m a (v % 256)) (a + 1) (v / 256) a (inl (omega arith)),
  update_self m a (v % 256),
  load-store_self n (update m a (v % 256)) (a + 1) (v / 256) (omega (arith, pow-suc 256 n)),
)

pub load-store_apart :
    (n k : ℕ) (m : Memory) (a v b : ℕ)
    → (b + k ≤ a) ⊎ (a + n ≤ b)
    → load k (store n m a v) b ≡ load k m b
load-store_apart n k m a v b h =
    load_ext k (store n m a v) m b (λ c p q. store_outside n m a v c (omega arith))

pub load64-store64 : (m : Memory) (a v : ℕ) → v < 2 ^ 64 → load64 (store64 m a v) a ≡ v
unfolding load64 store64
load64-store64 m a v h = load-store_self 8 m a v h

pub load64-store64_apart :
    (m : Memory) (a v b : ℕ) → (b + 8 ≤ a) ⊎ (a + 8 ≤ b) → load64 (store64 m a v) b ≡ load64 m b
unfolding load64 store64
load64-store64_apart m a v b h = load-store_apart 8 8 m a v b h

pub store64_outside : (m : Memory) (a v b : ℕ) → (b < a) ⊎ (a + 8 ≤ b) → store64 m a v b ≡ m b
unfolding store64
store64_outside m a v b h = store_outside 8 m a v b h

pub load64_ext :
    (m m' : Memory) (a : ℕ) → ((b : ℕ) → a ≤ b → b < a + 8 → m b ≡ m' b) → load64 m a ≡ load64 m' a
unfolding load64
load64_ext m m' a h = load_ext 8 m m' a h

-- The bytes are bytes.
abbrev pub IsBytes : Memory → Type 0
IsBytes m = (a : ℕ) → m a < 256

pub load-lt : (n : ℕ) (m : Memory) (a : ℕ) → IsBytes m → load n m a < 256 ^ n
unfolding load
load-lt zero m a h = omega arith
load-lt (suc n) m a h = omega (arith, h a, load-lt n m (a + 1) h, pow-suc 256 n)

pub load64-lt : (m : Memory) (a : ℕ) → IsBytes m → load64 m a < 2 ^ 64
unfolding load64
load64-lt m a h = load-lt 8 m a h

pub store-IsBytes : (n : ℕ) (m : Memory) (a v : ℕ) → IsBytes m → IsBytes (store n m a v)
unfolding store
store-IsBytes zero m a v h = h
store-IsBytes (suc n) m a v h =
    store-IsBytes n (update m a (v % 256)) (a + 1) (v / 256) (λ b. ground (arith, h b))

pub store64-IsBytes : (m : Memory) (a v : ℕ) → IsBytes m → IsBytes (store64 m a v)
unfolding store64
store64-IsBytes m a v h = store-IsBytes 8 m a v h

-- The n bytes at p.
abbrev pub bytes_at : Memory → ℕ → ℕ → List ℕ
bytes_at m p zero = []
bytes_at m p (suc n) = m p ∷ bytes_at m (p + 1) n

-- A NUL-terminated string of the bytes `s` at `p`.
abbrev pub StringAt : Memory → ℕ → List ℕ → Type 0
StringAt m p [] = m p ≡ 0
StringAt m p (c ∷ s) = (m p ≡ c) × (c ≢ 0) × StringAt m (p + 1) s
