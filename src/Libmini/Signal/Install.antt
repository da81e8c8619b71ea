-- ===== src/Libmini/Signal/Install.antt =====
-- What `signal` of hw3/libmini.c asks of the kernel.
use nctu_unix.Base.{ℕ, ◌+◌, ◌<◌, ◌≤◌, ◌≡◌, refl, ◌∙◌, ap, arith, true, false, ◌||◌, ◌==◌, ◌^◌}
use nctu_unix.Base.{
  Bool, neg, ◌⊎◌, bit_or, if◌then◌else◌, ℤ, pos, negsuc, ltb_ℤ, leb_ℤ, is_negative, ◌∷◌,
}
use nctu_unix.Base.Memory.{
  Memory, load64_ext, store64_outside, load64, store64, load64-store64, load64-store64_apart,
}
use nctu_unix.Libmini.Machine.{Syscall, Kernel, Machine, sys_rt_sigaction}
use nctu_unix.Libmini.Wrappers.Reply.{called, int_reply}
use nctu_unix.Libmini.Sigset.Word.{good, pow_lt}
use nctu_unix.Libmini.Sigset.Laws.{sigemptyset_made, sigaddset_adds, empty_word}
use nctu_unix.Libmini.Strings.{memset}
use nctu_unix.Libmini.Strings.Fill.{memset_fills}
use nctu_unix.Base.Bits.{zero-bit_or}
use nctu_unix.Libmini.Sigset.{einval, nsig, bad_argument, sigmask}
use nctu_unix.Libmini.Signal.{
  sa_restart, sa_restorer, sig_err, sigset_size, handler_of, flags_of, restorer_of, mask_of,
  sigaction, signal,
}

abbrev pub bad_call : ℕ → ℤ → Bool
bad_call handler sig = handler == sig_err || ltb_ℤ sig (pos 1) || leb_ℤ nsig sig

-- What a `struct sigaction` at `act` says, for a handler that is to block its own signal.
pub record Asks (m : Memory) (act : ℕ) (sig : ℤ) (handler myrt : ℕ) : Type 0 where
  pub handler_field : load64 m (handler_of act) ≡ handler
  pub flags_field : load64 m (flags_of act) ≡ bit_or sa_restart sa_restorer
  pub restorer_field : load64 m (restorer_of act) ≡ myrt
  pub mask_field : load64 m (mask_of act) ≡ sigmask sig

negative_twice : (r : ℤ) → is_negative (if is_negative r then negsuc 0 else r) ≡ is_negative r
negative_twice (pos n) = refl
negative_twice (negsuc e) = refl

module _ (k : Kernel) (myrt act oact : ℕ) (sig : ℤ) (handler : ℕ) (m : Machine) where
  abbrev with_handler : Memory
  with_handler = store64 m.memory (handler_of act) handler

  emptied : Memory
  emptied = (memset (mask_of act) (pos 0) (pos 8) (record m { memory = with_handler })).1.memory

  with_mask : Memory
  with_mask = store64 emptied (mask_of act) (bit_or (load64 emptied (mask_of act)) (sigmask sig))

  with_flags : Memory
  with_flags = store64 with_mask (flags_of act) sa_restart

  with_restorer_flag : Memory
  with_restorer_flag =
      store64 with_flags (flags_of act) (bit_or (load64 with_flags (flags_of act)) sa_restorer)

  -- Memory when the system call is made.
  pub prepared : Memory
  prepared = store64 with_restorer_flag (restorer_of act) myrt

  abbrev pub install : Syscall
  install = sys_rt_sigaction sig act oact sigset_size

  -- What `signal` makes of the kernel's answer and the memory that the kernel leaves.
  abbrev pub concluded : ℤ × Memory → ℕ × Machine
  concluded (r, after) = (
    if is_negative r then sig_err else load64 after (handler_of oact),
    record {
      memory = after;
      errno = if is_negative r then neg r else pos 0;
      calls = record { call = install; seen = prepared } ∷ m.calls;
    },
  )

  good_call : bad_call handler sig ≡ false → bad_argument (mask_of act) sig ≡ false
  good_call h = ground arith

  sigmask_lt : bad_call handler sig ≡ false → sigmask sig < 2 ^ 64
  sigmask_lt h =
      let g = good (mask_of act) sig (good_call h) in
      rw (ap sigmask g.signal_of) (pow_lt g.index g.in_range)

  emptied_outside : (b : ℕ) → (b < act + 24) ⊎ (act + 32 ≤ b) → emptied b ≡ with_handler b
  unfolding emptied
  emptied_outside b h =
      (memset_fills (mask_of act) (pos 0) (pos 8) (record m { memory = with_handler })).1 b
      ∙ ground arith

  emptied_word : load64 emptied (mask_of act) ≡ 0
  unfolding emptied
  emptied_word = empty_word (mask_of act) (record m { memory = with_handler })

  -- Nothing outside the 32 bytes of the structure is written.
  keeps : (b : ℕ) → (b < act) ⊎ (act + 32 ≤ b) → prepared b ≡ m.memory b
  unfolding prepared with_restorer_flag with_flags with_mask
  keeps b h =
      store64_outside with_restorer_flag (restorer_of act) myrt b (omega arith)
      ∙ store64_outside with_flags (flags_of act) _ b (omega arith)
      ∙ store64_outside with_mask (flags_of act) sa_restart b (omega arith)
      ∙ store64_outside emptied (mask_of act) _ b (omega arith)
      ∙ emptied_outside b (omega arith)
      ∙ store64_outside m.memory (handler_of act) handler b (omega arith)

  asks :
      bad_call handler sig ≡ false
      → handler < 2 ^ 64
      → myrt < 2 ^ 64
      → Asks prepared act sig handler myrt
  unfolding prepared with_restorer_flag with_flags with_mask
  asks h hh hm = record {
    handler_field =
        load64-store64_apart with_restorer_flag (restorer_of act) myrt act (omega arith)
        ∙ load64-store64_apart with_flags (flags_of act) _ act (omega arith)
        ∙ load64-store64_apart with_mask (flags_of act) sa_restart act (omega arith)
        ∙ load64-store64_apart emptied (mask_of act) _ act (omega arith)
        ∙ load64_ext emptied with_handler act (λ b p q. emptied_outside b (omega arith))
        ∙ load64-store64 m.memory act handler hh;
    flags_field =
        load64-store64_apart with_restorer_flag (restorer_of act) myrt (flags_of act) (omega arith)
        ∙ ap
            (λ (v : ℕ).
              load64 (store64 with_flags (flags_of act) (bit_or v sa_restorer)) (flags_of act))
            (load64-store64 with_mask (flags_of act) sa_restart (omega arith))
        ∙ load64-store64 with_flags (flags_of act) (bit_or sa_restart sa_restorer) (omega arith);
    restorer_field = load64-store64 with_restorer_flag (restorer_of act) myrt hm;
    mask_field =
        load64-store64_apart with_restorer_flag (restorer_of act) myrt (mask_of act) (omega arith)
        ∙ load64-store64_apart with_flags (flags_of act) _ (mask_of act) (omega arith)
        ∙ load64-store64_apart with_mask (flags_of act) sa_restart (mask_of act) (omega arith)
        ∙ ap
            (λ (v : ℕ).
              load64 (store64 emptied (mask_of act) (bit_or v (sigmask sig))) (mask_of act))
            emptied_word
        ∙ ap (λ (v : ℕ). load64 (store64 emptied (mask_of act) v) (mask_of act))
            (zero-bit_or (sigmask sig))
        ∙ load64-store64 emptied (mask_of act) (sigmask sig) (sigmask_lt h);
  }

  runs :
      bad_call handler sig ≡ false
      → ((n : ℕ) → (k m.calls install prepared).0 ≡ pos n → n < 2 ^ 31)
      → signal k myrt act oact sig handler m ≡ concluded (k m.calls install prepared)
  unfolding signal sigaction prepared with_restorer_flag with_flags with_mask emptied memset
  runs h fits =
      rw
        (
          h,
          sigemptyset_made (mask_of act) (record m { memory = with_handler })
              (λ e. absurd (omega arith)),
          sigaddset_adds (mask_of act) sig (record m { memory = emptied }) (good_call h),
        )
        (rw
          (int_reply (k m.calls install prepared).0
            (called k install (record m { memory = prepared }) m.errno) fits)
          (rw (negative_twice (k m.calls install prepared).0)))

  -- For a signal from 1 to 64, a handler that is not SIG_ERR, and a kernel whose answer an `int`
  -- can hold: `signal` makes one system call, with a structure that holds the handler, the flags
  -- SA_RESTART | SA_RESTORER, the restorer and a mask of this one signal, having written nothing
  -- outside the structure; it returns the old handler and clears `errno` if the kernel agrees,
  -- and returns SIG_ERR with the kernel's error in `errno` if not.
  pub signal_installs :
      (b : ℕ)
      → bad_call handler sig ≡ false
      → handler < 2 ^ 64
      → myrt < 2 ^ 64
      → ((n : ℕ) → (k m.calls install prepared).0 ≡ pos n → n < 2 ^ 31)
      → (b < act) ⊎ (act + 32 ≤ b)
      → Asks prepared act sig handler myrt
        × (prepared b ≡ m.memory b)
        × (signal k myrt act oact sig handler m ≡ concluded (k m.calls install prepared))
  signal_installs b h hh hm fits out = (asks h hh hm, keeps b out, runs h fits)

  -- For any other signal, or the handler SIG_ERR, `signal` returns SIG_ERR with `errno` EINVAL,
  -- makes no system call and writes no memory.
  pub signal_refuses :
      bad_call handler sig ≡ true
      → signal k myrt act oact sig handler m ≡ (sig_err, record m { errno = einval })
  unfolding signal
  signal_refuses h = rw h
