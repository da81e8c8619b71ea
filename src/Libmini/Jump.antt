-- ===== src/Libmini/Jump.antt =====
-- `setjmp`, `longjmp` and `sleep` of hw3/libmini64.asm.
--
-- The words that are pushed and popped again are local values here: nobody else has their address.
-- Only the slots on the stack that the kernel is given stand in the memory.
pub mod Slots
pub mod Back
pub mod Asleep
mod Tests
use nctu_unix.Base.{
  ℕ, ◌+◌, ◌-◌, ◌*◌, Bool, ◌==◌, if◌then◌else◌, List, [], ◌∷◌, ℤ, pos, negsuc, is_negative, eq_ℤ,
}
use nctu_unix.Base.Memory.{Memory, load64, store64}
use nctu_unix.Libmini.Machine.{
  Kernel, Machine, M, pure, ◌>>=◌, ◌>>◌, set_memory, memory, syscall, sys_rt_sigprocmask,
  sys_nanosleep,
}

-- The registers that a function has to leave as they were, the result, and where the program is.
pub record Cpu : Type 0 where
  pub rax : ℕ
  pub rbx : ℕ
  pub rsp : ℕ
  pub rbp : ℕ
  pub r12 : ℕ
  pub r13 : ℕ
  pub r14 : ℕ
  pub r15 : ℕ
  pub rip : ℕ
  pub machine : Machine

-- `[env + i * 8]`.
abbrev pub slot : ℕ → ℕ → ℕ
slot env i = env + i * 8

-- One store after the other.
abbrev pub put_slots : ℕ → List (ℕ × ℕ) → Memory → Memory
put_slots env [] m = m
put_slots env ((i, v) ∷ slots) m = put_slots env slots (store64 m (slot env i) v)

-- The registers, in the order of `reg`; the stack pointer is the one behind the return.
abbrev pub registers : Cpu → List (ℕ × ℕ)
registers c =
    (0, c.rbx)
    ∷ (1, c.rsp + 8)
    ∷ (2, c.rbp)
    ∷ (3, c.r12)
    ∷ (4, c.r13)
    ∷ (5, c.r14)
    ∷ (6, c.r15)
    ∷ []

abbrev pub with_memory : Memory → Machine → Machine
with_memory m machine = record machine { memory = m }

module _ (k : Kernel) where
  -- The registers and the return address in the buffer.
  abbrev pub registers_saved : ℕ → Cpu → Memory
  registers_saved env c =
      let m = put_slots env (registers c) c.machine.memory in
      store64 m (slot env 7) (load64 m c.rsp)

  -- Behind `rt_sigprocmask(SIG_BLOCK, NULL, rsp, 8)`, five words below the return address.
  abbrev pub mask_asked : ℕ → Cpu → Machine
  mask_asked env c =
      (syscall k (sys_rt_sigprocmask (pos 0) 0 (c.rsp - 40) (pos 8))
        (with_memory (registers_saved env c) c.machine)).1

  -- With the mask in its place, and back at the caller.
  unfoldable pub setjmp : ℕ → Cpu → Cpu
  setjmp env c =
      let asked = mask_asked env c in
      let m = store64 asked.memory (slot env 8) (load64 asked.memory (c.rsp - 40)) in
      record c { rax = 0; rsp = c.rsp + 8; rip = load64 m c.rsp; machine = with_memory m asked }

  -- Behind `rt_sigprocmask(SIG_SETMASK, mask, NULL, 8)`.
  abbrev pub mask_set : ℕ → Cpu → Machine
  mask_set env c = (syscall k (sys_rt_sigprocmask (pos 2) (slot env 8) 0 (pos 8)) c.machine).1

  unfoldable pub longjmp : ℕ → ℕ → Cpu → Cpu
  longjmp env val c =
      let m = c.machine.memory in
      let set = mask_set env c in
      record {
        rax = if val == 0 then 1 else val;
        rbx = load64 m (slot env 0);
        rsp = load64 m (slot env 1);
        rbp = load64 m (slot env 2);
        r12 = load64 m (slot env 3);
        r13 = load64 m (slot env 4);
        r14 = load64 m (slot env 5);
        r15 = load64 m (slot env 6);
        rip = load64 set.memory (slot env 7);
        machine = set;
      }

  -- `req` is `rsp` once 32 bytes have been taken from it; EINTR is 4.
  unfoldable pub sleep : ℕ → ℕ → M ℤ
  sleep req seconds = do
    set_memory (λ m. store64 m req seconds)
    set_memory (λ m. store64 m (req + 8) 0)
    ret ← syscall k (sys_nanosleep req (req + 16))
    m ← memory
    pure (
        if is_negative ret
        then (if eq_ℤ ret (negsuc 3) then pos (load64 m (req + 16)) else pos 0)
        else ret)
