-- ===== src/Debugger/Ptrace.antt =====
-- What ptrace(2) says of the words that sdb (hw4/hw4.cpp) reads and writes in the program.
use Prim.Native.Nat.{zero, suc}
use nctu_unix.Base.{
  ℕ, ◌≤◌, ◌+◌, ◌*◌, ◌/◌, ◌%◌, ◌<◌, ◌≡◌, ◌⊎◌, ◌≢◌, sym, Bool-cases, ==_iff, refl, ◌∙◌, ◌==◌, some,
  inl, inr, arith, ap,
}
use nctu_unix.Base.Memory.{Memory, IsBytes, load, store, load64, store64, update, update_ne}
use nctu_unix.Debugger.State.{Kernel, Regs}

-- PTRACE_PEEKTEXT and PTRACE_POKETEXT read and write little-endian words of the memory;
-- PTRACE_GETREGS gives what PTRACE_SETREGS set,
-- which leaves memory alone.
pub record IsPtrace (k : Kernel) : Type 0 where
  pub memory : k.World → Memory
  pub memory-IsBytes : (w : k.World) → IsBytes (memory w)
  pub peek_reads : (p a : ℕ) (w : k.World) → k.peek p a w ≡ load64 (memory w) a
  pub poke_writes :
      (p a v : ℕ) (w w' : k.World)
      → k.poke p a v w ≡ some w'
      → (b : ℕ) → memory w' b ≡ store64 (memory w) a v b
  pub registers_apart :
      (p : ℕ) (regs : Regs) (w w' : k.World)
      → k.set_regs p regs w ≡ some w'
      → (b : ℕ) → memory w' b ≡ memory w b
  pub registers_kept :
      (p : ℕ) (regs : Regs) (w w' : k.World)
      → k.set_regs p regs w ≡ some w'
      → k.get_regs p w' ≡ some regs

pub low_byte : (x l : ℕ) → x < 256 → (x + 256 * l) % 256 ≡ x
low_byte x l h = omega arith

pub high_bytes : (x l : ℕ) → x < 256 → (x + 256 * l) / 256 ≡ l
high_bytes x l h = omega arith

put_byte : (x l v : ℕ) → x < 256 → (x + 256 * l) / 256 * 256 + v ≡ v + 256 * l
put_byte x l v h = omega arith

-- Storing the bytes that are there changes nothing.
store-load :
    (n : ℕ) (m m' : Memory) (a : ℕ)
    → IsBytes m
    → ((b : ℕ) → a ≤ b → b < a + n → m' b ≡ m b)
    → (b : ℕ) → store n m' a (load n m a) b ≡ m' b
unfolding store load
store-load zero m m' a ok h b = refl
store-load (suc n) m m' a ok h b =
    rw (low_byte (m a) (load n m (a + 1)) (ok a), high_bytes (m a) (load n m (a + 1)) (ok a))
      (store-load n m (update m' a (m a)) (a + 1) ok
          (λ c p q. update_ne m' a (m a) c (λ e. omega arith) ∙ h c (omega arith) (omega arith)) b
        ∙ ground (arith, h a (omega arith) (omega arith)))

-- Storing a word with another lowest byte changes that byte alone.
store_byte :
    (n : ℕ) (m : Memory) (a v : ℕ)
    → IsBytes m
    → v < 256
    → (b : ℕ) → store (suc n) m a (load (suc n) m a / 256 * 256 + v) b ≡ update m a v b
unfolding store load
store_byte n m a v ok h b =
    rw
      (
        put_byte (m a) (load n m (a + 1)) v (ok a),
        low_byte v (load n m (a + 1)) h,
        high_bytes v (load n m (a + 1)) h,
      )
      (store-load n m (update m a v) (a + 1) ok (λ c p q. update_ne m a v c (λ e. omega arith)) b)

pub store64_byte :
    (m : Memory) (a v : ℕ)
    → IsBytes m
    → v < 256
    → (b : ℕ) → store64 m a (load64 m a / 256 * 256 + v) b ≡ update m a v b
unfolding store64 load64
store64_byte m a v ok h b = store_byte 7 m a v ok h b

lowest : (n : ℕ) (m : Memory) (a : ℕ) → IsBytes m → load (suc n) m a % 256 ≡ m a
unfolding load
lowest n m a ok = low_byte (m a) (load n m (a + 1)) (ok a)

pub load64_lowest : (m : Memory) (a : ℕ) → IsBytes m → load64 m a % 256 ≡ m a
unfolding load64
load64_lowest m a ok = lowest 7 m a ok

put_there : (m m' : Memory) (a c : ℕ) → (c ≢ a → m' c ≡ m c) → update m' a (m a) c ≡ m c
put_there m m' a c h = elim (Bool-cases (c == a)) [
  | inl e ↦ rw e (ap m (sym ((==_iff c a).0 e)))
  | inr e ↦ rw e (h (λ same. absurd (ground (arith, same, e))))
]

-- Putting a word back undoes whatever was stored in its place.
store_again :
    (n : ℕ) (m m' : Memory) (a : ℕ)
    → IsBytes m
    → ((b : ℕ) → (b < a) ⊎ (a + n ≤ b) → m' b ≡ m b)
    → (b : ℕ) → store n m' a (load n m a) b ≡ m b
unfolding store load
store_again zero m m' a ok h b = h b (omega arith)
store_again (suc n) m m' a ok h b =
    rw (low_byte (m a) (load n m (a + 1)) (ok a), high_bytes (m a) (load n m (a + 1)) (ok a))
      (store_again n m (update m' a (m a)) (a + 1) ok
        (λ c q. put_there m m' a c (λ ne. h c (omega arith))) b)

pub store64_again :
    (m m' : Memory) (a : ℕ)
    → IsBytes m
    → ((b : ℕ) → (b < a) ⊎ (a + 8 ≤ b) → m' b ≡ m b)
    → (b : ℕ) → store64 m' a (load64 m a) b ≡ m b
unfolding store64 load64
store64_again m m' a ok h b = store_again 8 m m' a ok h b
