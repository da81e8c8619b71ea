-- ===== src/Debugger/Inspect/Dump.antt =====
-- That `dump` of hw4/hw4.cpp shows the bytes of the program.
use nctu_unix.Base.{
  ℕ, zero, suc, ◌+◌, ◌%◌, ◌^◌, ◌≡◌, ◌≢◌, refl, ap, ◌∙◌, true, ==_false, List, [], ◌∷◌, map,
}
use nctu_unix.Base.Memory.{Memory, IsBytes, load, load64, bytes_at}
use nctu_unix.Debugger.State.{Kernel, Sdb, done, Item, is_running, lit, txt, hex, bytes}
use nctu_unix.Debugger.Ptrace.{IsPtrace, low_byte, high_bytes}
use nctu_unix.Debugger.Breakpoints.{intext}
use nctu_unix.Debugger.Inspect.{bytes_of, ascii, dump_rows, dump}

bytes_of-load : (n : ℕ) (m : Memory) (a : ℕ) → IsBytes m → bytes_of n (load n m a) ≡ bytes_at m a n
unfolding load
bytes_of-load zero m a ok = refl
bytes_of-load (suc n) m a ok =
    rw
      (
        low_byte (m a) (load n m (a + 1)) (ok a),
        high_bytes (m a) (load n m (a + 1)) (ok a),
        bytes_of-load n m (a + 1) ok,
      )
      refl

word_bytes : (m : Memory) (a : ℕ) → IsBytes m → bytes_of 8 (load64 m a) ≡ bytes_at m a 8
unfolding load64
word_bytes m a ok = bytes_of-load 8 m a ok

-- The address, the bytes of two words, and the same bytes as text.
abbrev pub words_line : ℕ → List ℕ → List ℕ → List Item
words_line a xs ys =
    hex a
    ∷ lit ": "
    ∷ bytes xs
    ∷ bytes ys
    ∷ lit "|"
    ∷ txt (map ascii xs)
    ∷ txt (map ascii ys)
    ∷ lit "|"
    ∷ []

abbrev pub dump_line : Memory → ℕ → List Item
dump_line m a = words_line a (bytes_at m a 8) (bytes_at m ((a + 8) % 2 ^ 64) 8)

-- The lines of n rows in front of what was printed, the last row first.
abbrev pub dump_lines : Memory → ℕ → ℕ → List (List Item) → List (List Item)
dump_lines m zero a out = out
dump_lines m (suc n) a out = dump_lines m n ((a + 16) % 2 ^ 64) (dump_line m a ∷ out)

module _ {k : Kernel} (ptrace : IsPtrace k) where
  peeked_bytes :
      (s : Sdb k) (a : ℕ)
      → bytes_of 8 (k.peek s.pid a s.world) ≡ bytes_at (ptrace.memory s.world) a 8
  peeked_bytes s a =
      ap (λ (v : ℕ). bytes_of 8 v) (ptrace.peek_reads s.pid a s.world)
      ∙ word_bytes (ptrace.memory s.world) a (ptrace.memory-IsBytes s.world)

  rows_show :
      (n a : ℕ) (s : Sdb k)
      → dump_rows n a s
        ≡ done tt (record s { output = dump_lines (ptrace.memory s.world) n a s.output })
  unfolding dump_rows
  rows_show zero a s = refl
  rows_show (suc n) a s =
      ap
        (λ (line : List Item).
          dump_rows n ((a + 16) % 2 ^ 64) (record s { output = line ∷ s.output }))
        (ap
            (λ (xs : List ℕ).
              words_line a xs (bytes_of 8 (k.peek s.pid ((a + 8) % 2 ^ 64) s.world)))
            (peeked_bytes s a)
          ∙ ap (λ (ys : List ℕ). words_line a (bytes_at (ptrace.memory s.world) a 8) ys)
              (peeked_bytes s ((a + 8) % 2 ^ 64)))
      ∙ rows_show n ((a + 16) % 2 ^ 64)
          (record s { output = dump_line (ptrace.memory s.world) a ∷ s.output })

  -- `dump` at an address of the text of a running program other than 0 prints five rows, which
  -- show the 16 bytes of memory at each of the addresses that follow one another by 16, and
  -- changes nothing else.
  pub dump_shows :
      (addr : ℕ) (s : Sdb k)
      → addr ≢ 0
      → is_running s.phase ≡ true
      → intext s.elf addr ≡ true
      → dump addr s
        ≡ done tt (record s { output = dump_lines (ptrace.memory s.world) 5 addr s.output })
  unfolding dump
  dump_shows addr s h r t = rw (==_false addr 0 h, r, t) (rows_show 5 addr s)
