-- ===== src/Libmini/Jump/Back.antt =====
-- That longjmp comes back to where setjmp was called (hw3/libmini64.asm).
use nctu_unix.Base.{
  ℕ, ◌+◌, ◌-◌, ◌^◌, ◌≤◌, ◌<◌, ◌≡◌, refl, sym, ◌∙◌, ◌⊎◌, inr, ◌==◌, if◌then◌else◌, List, [], ◌∷◌,
  ◌++◌, arith,
}
use nctu_unix.Base.Memory.{
  Memory, IsBytes, load64, load64-store64, load64-store64_apart, load64_ext, load64-lt,
}
use nctu_unix.Libmini.Machine.{Kernel}
use nctu_unix.Libmini.Jump.{
  Cpu, slot, put_slots, registers, registers_saved, mask_asked, setjmp, mask_set, longjmp,
}
use nctu_unix.Libmini.Jump.Slots.{last_put, AllWords, load64-put_slots, beside, AllWords-append}

-- The registers are words, and the frame of setjmp lies outside the buffer.
pub record IsCall (env : ℕ) (c : Cpu) : Type 0 where
  pub rbx : c.rbx < 2 ^ 64
  pub rsp : c.rsp + 8 < 2 ^ 64
  pub rbp : c.rbp < 2 ^ 64
  pub r12 : c.r12 < 2 ^ 64
  pub r13 : c.r13 < 2 ^ 64
  pub r14 : c.r14 < 2 ^ 64
  pub r15 : c.r15 < 2 ^ 64
  pub bytes : IsBytes c.machine.memory
  pub deep : 40 ≤ c.rsp
  pub apart : (env + 72 ≤ c.rsp - 40) ⊎ (c.rsp + 8 ≤ env)

module _ (k : Kernel) where
  -- The kernel writes the mask where it is asked to, and nothing else.
  pub record IsAnswered (env : ℕ) (c : Cpu) : Type 0 where
    pub bytes : IsBytes (mask_asked k env c).memory
    pub others :
        (b : ℕ)
        → (b < c.rsp - 40) ⊎ (c.rsp - 32 ≤ b)
        → (mask_asked k env c).memory b ≡ registers_saved k env c b

module _ (k : Kernel) (env : ℕ) (c : Cpu) (call : IsCall env c)
    (answered : IsAnswered k env c) where
  abbrev return_address : ℕ
  return_address = load64 c.machine.memory c.rsp

  abbrev before : Memory
  before = c.machine.memory

  registers-AllWords : AllWords (registers c)
  registers-AllWords = (
    call.rbx,
    omega arith,
    (
      call.rsp,
      omega arith,
      (
        call.rbp,
        omega arith,
        (
          call.r12,
          omega arith,
          (call.r13, omega arith, (call.r14, omega arith, (call.r15, omega arith, tt))),
        ),
      ),
    ),
  )

  -- The return address is not touched.
  frame_apart : (env + 72 ≤ c.rsp) ⊎ (c.rsp + 8 ≤ env)
  frame_apart = ground (arith, call.apart, call.deep)

  kept_address : load64 (put_slots env (registers c) before) c.rsp ≡ return_address
  kept_address = beside before env c.rsp (registers c) registers-AllWords frame_apart

  abbrev saved : List (ℕ × ℕ)
  saved = registers c ++ ((7, load64 (put_slots env (registers c) before) c.rsp) ∷ [])

  saved-AllWords : AllWords saved
  saved-AllWords =
      AllWords-append (registers c) _ registers-AllWords
        (omega (arith, kept_address, load64-lt before c.rsp call.bytes))

  -- What the kernel leaves of a word outside its slot.
  asked_word :
      (a : ℕ)
      → (a + 8 ≤ c.rsp - 40) ⊎ (c.rsp - 32 ≤ a)
      → load64 (mask_asked k env c).memory a ≡ load64 (put_slots env saved before) a
  asked_word a h =
      load64_ext (mask_asked k env c).memory (put_slots env saved before) a
        (λ b p q. answered.others b (omega (arith, h, p, q)))

  slot_apart : (i : ℕ) → i < 9 → (slot env i + 8 ≤ c.rsp - 40) ⊎ (c.rsp - 32 ≤ slot env i)
  slot_apart i h = omega (arith, h, call.apart, call.deep)

  -- The slots when setjmp has come back.
  slot_lem :
      (i : ℕ)
      → i < 8
      → load64 (setjmp k env c).machine.memory (slot env i)
        ≡ last_put saved i (load64 before (slot env i))
  unfolding setjmp
  slot_lem i h =
      load64-store64_apart (mask_asked k env c).memory (slot env 8) _ (slot env i)
        (omega (arith, h))
      ∙ asked_word (slot env i) (slot_apart i (omega (arith, h)))
      ∙ load64-put_slots before env i saved saved-AllWords

  mask_lem :
      load64 (setjmp k env c).machine.memory (slot env 8)
      ≡ load64 (mask_asked k env c).memory (c.rsp - 40)
  unfolding setjmp
  mask_lem =
      load64-store64 (mask_asked k env c).memory (slot env 8) _
        (load64-lt (mask_asked k env c).memory (c.rsp - 40) answered.bytes)

  rip_lem : (setjmp k env c).rip ≡ return_address
  unfolding setjmp
  rip_lem =
      load64-store64_apart (mask_asked k env c).memory (slot env 8) _ c.rsp
        (omega (arith, frame_apart))
      ∙ asked_word c.rsp (inr (omega arith))
      ∙ beside before env c.rsp saved saved-AllWords frame_apart

module _ (k : Kernel) (env val : ℕ) (c d : Cpu) (call : IsCall env c)
    (answered : IsAnswered k env c)
    (kept : (b : ℕ)
      → env ≤ b
      → b < env + 72
      → d.machine.memory b ≡ (setjmp k env c).machine.memory b) where
  same_slot :
      (i : ℕ)
      → i < 9
      → load64 d.machine.memory (slot env i) ≡ load64 (setjmp k env c).machine.memory (slot env i)
  same_slot i h =
      load64_ext d.machine.memory (setjmp k env c).machine.memory (slot env i)
        (λ b p q. kept b (omega (arith, p)) (omega (arith, q, h)))

  restored :
      (i : ℕ)
      → i < 8
      → load64 d.machine.memory (slot env i)
        ≡ last_put (saved k env c call answered) i (load64 c.machine.memory (slot env i))
  restored i h = same_slot i (omega (arith, h)) ∙ slot_lem k env c call answered i h

  same_address :
      ((b : ℕ) → (mask_set k env d).memory b ≡ d.machine.memory b)
      → load64 (mask_set k env d).memory (slot env 7) ≡ (setjmp k env c).rip
  same_address quiet =
      load64_ext (mask_set k env d).memory d.machine.memory (slot env 7) (λ b p q. quiet b)
      ∙ restored 7 (omega arith)
      ∙ kept_address k env c call answered
      ∙ sym (rip_lem k env c call answered)

  -- Where registers hold words, the frame of setjmp lies outside the buffer, rt_sigprocmask writes
  -- the mask where setjmp asks for it and nothing else, the buffer is later as setjmp left it, and
  -- rt_sigprocmask in longjmp changes no memory: longjmp from any other state is setjmp coming back
  -- once more, with all registers that a function has to keep as they were then, but with val for
  -- its result, or 1 if val is 0; and the mask that longjmp hands to the kernel is the one that
  -- the kernel gave setjmp.
  pub longjmp-setjmp :
      ((b : ℕ) → (mask_set k env d).memory b ≡ d.machine.memory b)
      → (longjmp k env val d ≡ record (setjmp k env c) {
        rax = if val == 0 then 1 else val;
        machine = mask_set k env d;
      })
        × (load64 d.machine.memory (slot env 8) ≡ load64 (mask_asked k env c).memory (c.rsp - 40))
  unfolding longjmp setjmp
  longjmp-setjmp quiet = (
    rw
        (
          longjmp,
          restored 0 (omega arith),
          restored 1 (omega arith),
          restored 2 (omega arith),
          restored 3 (omega arith),
          restored 4 (omega arith),
          restored 5 (omega arith),
          restored 6 (omega arith),
          same_address quiet,
        )
        refl,
    same_slot 8 (omega arith) ∙ mask_lem k env c call answered,
  )
