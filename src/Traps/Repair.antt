-- ===== src/Traps/Repair.antt =====
-- What a stop at a breakpoint instruction does in asm/ptrace/no_more_traps/test.cpp.
use native.Mathlib.Nat.{pow-suc, le_refl}
use nctu_unix.Base.{
  ℕ, zero, suc, ◌+◌, ◌*◌, ◌/◌, ◌%◌, ◌^◌, ◌<◌, ◌≡◌, ap, sym, ◌∙◌, true, ◌==◌, bit_or, List, ◌∷◌,
  Option, some, arith, ltb, if◌then◌else◌,
}
use nctu_unix.Base.Bits.{or_digit}
use nctu_unix.Base.Masks.{and_high, or_none}
use nctu_unix.Base.Memory.{update, load64, load64-lt}
use nctu_unix.Debugger.State.{Kernel, Regs}
use nctu_unix.Debugger.Control.{before}
use nctu_unix.Debugger.Breakpoints.Patch.{Writable}
use nctu_unix.Debugger.Ptrace.{IsPtrace, store64_byte, load64_lowest}
use nctu_unix.Traps.{to_hex, next_byte, behind_char, repaired, is_trap, Tracer, repair, stopped}

-- The character of a digit, as "%x" prints it.
abbrev pub hex_char : ℕ → ℕ
hex_char d = if ltb d 10 then d + 48 else d + 87

pub to_hex-hex_char : (d : ℕ) → d < 16 → to_hex (hex_char d) ≡ d
unfolding to_hex
to_hex-hex_char d h = ground (arith, h)

-- k doublings.
abbrev shift : ℕ → ℕ → ℕ
shift zero x = x
shift (suc k) x = shift k x * 2

halve : (m : ℕ) → m * 2 / 2 ≡ m
halve m = omega arith

below_one : (v : ℕ) → v < 2 ^ 0 → 0 ≡ v
below_one v h = omega (arith, h)

-- Where the low digits are free.
or_low : (k x v : ℕ) → v < 2 ^ k → bit_or (shift k x) v ≡ shift k x + v
or_low zero x v h =
    ap (bit_or x) (sym (below_one v h)) ∙ or_none x x (le_refl x) ∙ omega (arith, below_one v h)
or_low (suc k) x v h = omega (
  arith,
  or_digit (shift k x * 2) v,
  ap (λ (t : ℕ). bit_or t (v / 2)) (halve (shift k x)),
  or_low k x (v / 2) (omega (arith, h, pow-suc 2 k)),
)

or_nibble : (x v : ℕ) → v < 16 → bit_or (x * 16 % 2 ^ 64) v ≡ x * 16 % 2 ^ 64 + v
or_nibble x v h =
    ap (λ (t : ℕ). bit_or t v) (multiple x)
    ∙ or_low 4 (x % 2 ^ 60) v h
    ∙ ap (λ (t : ℕ). t + v) (sym (multiple x))
  where
    multiple : (y : ℕ) → y * 16 % 2 ^ 64 ≡ y % 2 ^ 60 * 2 * 2 * 2 * 2
    multiple y = omega arith

or_byte : (x v : ℕ) → v < 256 → bit_or (x * 256) v ≡ x * 256 + v
or_byte x v h =
    ap (λ (t : ℕ). bit_or t v) (eight x) ∙ or_low 8 x v h ∙ ap (λ (t : ℕ). t + v) (sym (eight x))
  where
    eight : (y : ℕ) → y * 256 ≡ y * 2 * 2 * 2 * 2 * 2 * 2 * 2 * 2
    eight y = omega arith

-- Two digits of the file are a byte.
pub next_byte_lem :
    (h l : ℕ) (file : List ℕ)
    → h < 16
    → l < 16
    → next_byte (hex_char h ∷ hex_char l ∷ file) ≡ h * 16 + l
unfolding next_byte
next_byte_lem h l file p q =
    rw (next_byte, to_hex-hex_char h p, to_hex-hex_char l q) (or_nibble h l q ∙ omega (arith, p))

repaired_value :
    (code hex : ℕ) → code < 2 ^ 64 → hex < 256 → repaired code hex ≡ code / 256 * 256 + hex
repaired_value code hex c h = rw (and_high code c) (or_byte (code / 256) hex h)

-- Words can be written, and registers set.
abbrev pub Settable : Kernel → ℕ → Type 0
Settable k pid = (regs : Regs) (w : k.World) → (w' : k.World) × (k.set_regs pid regs w ≡ some w')

module _ {k : Kernel} (ptrace : IsPtrace k) (child : ℕ) (writable : Writable k child)
    (settable : Settable k child) where
  trapped : (a : ℕ) (w : k.World) → ptrace.memory w a ≡ 0xcc → is_trap (k.peek child a w) ≡ true
  trapped a w e =
      rw (ptrace.peek_reads child a w) (
        ap (λ (v : ℕ). v == 0xcc) (load64_lowest (ptrace.memory w) a (ptrace.memory-IsBytes w) ∙ e))

  -- The word that is written has another lowest byte.
  written :
      (a hex : ℕ) (w w' : k.World)
      → hex < 256
      → k.poke child a (repaired (k.peek child a w) hex) w ≡ some w'
      → (b : ℕ) → ptrace.memory w' b ≡ update (ptrace.memory w) a hex b
  written a hex w w' h e b =
      ptrace.poke_writes child a _ w w' e b
      ∙ rw
          (
            ptrace.peek_reads child a w,
            repaired_value (load64 (ptrace.memory w) a) hex
                (load64-lt (ptrace.memory w) a (ptrace.memory-IsBytes w)) h,
          )
          (store64_byte (ptrace.memory w) a hex (ptrace.memory-IsBytes w) h b)

  abbrev going_on : ℕ → k.World → List ℕ → Option (Tracer k)
  going_on n w file =
      some (record { int_cont = n + 1; file = behind_char (behind_char file); world = w })

  -- After a stop right behind a byte 0xcc, where the file goes on with the digits of a byte, that
  -- byte of the program becomes the one of the file, no other byte is changed, the program goes
  -- on at that byte, the two digits are used up and the stop is counted: provided that words can
  -- be written and registers set.
  pub stopped_lem :
      (regs : Regs) (t : Tracer k) (h l : ℕ) (rest : List ℕ)
      → k.get_regs child t.world ≡ some regs
      → ptrace.memory t.world (before regs.rip) ≡ 0xcc
      → t.file ≡ hex_char h ∷ hex_char l ∷ rest
      → h < 16
      → l < 16
      → (w : k.World) × (stopped child t
          ≡ some (record { int_cont = t.int_cont + 1; file = rest; world = w }))
        × ((b : ℕ)
            → ptrace.memory w b ≡ update (ptrace.memory t.world) (before regs.rip) (h * 16 + l) b)
        × (k.get_regs child w ≡ some (record regs { rip = before regs.rip }))
  unfolding stopped repair
  stopped_lem regs t h l rest e trap digits p q =
      let a : ℕ = before regs.rip in
      let back : Regs = record regs { rip = a } in
      let (w, f) = writable a (repaired (k.peek child a t.world) (h * 16 + l)) t.world in
      let (w', g) = settable back w in
      (
        w',
        rw (stopped, e, trapped a t.world trap, repair, digits, next_byte_lem h l rest p q, f, g)
            (ap (going_on t.int_cont w') digits),
        λ b.
            ptrace.registers_apart child back w w' g b
            ∙ written a (h * 16 + l) t.world w (omega (arith, p, q)) f b,
        ptrace.registers_kept child back w w' g,
      )
