-- ===== src/Debugger/Breakpoints/Valid.antt =====
-- The invariant of sdb's state (hw4/hw4.cpp), and that `bp` and `del` keep it.
use Prim.Native.String.{String}
use nctu_unix.Base.{
  ℕ, inl, inr, ◌⊎◌, ◌≡◌, refl, true, not, ◌==◌, List, [], ◌∷◌, none, some, ℤ, arith, Bool-cases,
  Option-cases,
}
use nctu_unix.Debugger.State.{
  Kernel, Sdb, Outcome, done, exited, fault, blocked, Undefined, null_code, stray_header,
  null_string, stray_line, over_read, wrong_index, ◌>>=◌, ◌>>◌, Breakpoint, Elf, nonload, loaded,
  running, Phase, is_running, lit,
}
use nctu_unix.Debugger.Breakpoints.Entries.{
  Numbered, Distinct, InText, Numbered-append, Distinct-append, InText-append, Distinct-erase,
  InText-erase, Distinct-renumber, InText-renumber, renumber-erase_all, found-in_list,
}
use nctu_unix.Debugger.Breakpoints.{
  bp, del, intext, has_addr, find_id, erase, renumber, is_int3, with_int3, remember, del_found,
  poke_text,
}

-- Breakpoints are only there once a program is loaded.
abbrev pub EmptyIn : Phase → List Breakpoint → Type 0
EmptyIn nonload bps = bps ≡ []
EmptyIn loaded bps = Unit
EmptyIn running bps = Unit

pub record IsConsistent (phase : Phase) (pid : ℕ) (elf : Elf) (bps : List Breakpoint) : Type 0 where
  pub numbered : Numbered bps 0
  pub distinct : Distinct bps
  pub in_text : InText elf bps
  pub empty_in : EmptyIn phase bps
  pub pid_set : is_running phase ≡ not (pid == 0)

abbrev pub IsValid : {k : Kernel} → Sdb k → Type 0
IsValid s = IsConsistent s.phase s.pid s.elf s.bp_list

-- What is undefined is not an index outside `bp_list`.
abbrev pub IsElsewhere : Undefined → Type 0
IsElsewhere null_code = Unit
IsElsewhere stray_header = Unit
IsElsewhere null_string = Unit
IsElsewhere stray_line = Unit
IsElsewhere over_read = Unit
IsElsewhere wrong_index = ⊥

-- Where the command comes back the state is valid, and `bp_list` is never indexed outside.
abbrev pub Keeps : {k : Kernel} {A : Type 0} → Outcome k A → Type 0
Keeps (done a s) = IsValid s
Keeps (exited s) = Unit
Keeps (fault why) = IsElsewhere why
Keeps blocked = Unit

EmptyIn-running : (p : Phase) (bps : List Breakpoint) → is_running p ≡ true → EmptyIn p bps
EmptyIn-running nonload bps r = absurd (ground arith)
EmptyIn-running loaded bps r = tt
EmptyIn-running running bps r = tt

module _ {k : Kernel} where
  pub poke_text-cases :
      (func : String) (addr word : ℕ) (s : Sdb k)
      → ((w : k.World) × (k.poke s.pid addr word s.world ≡ some w)
          × (poke_text func addr word s ≡ done tt (record s { world = w })))
        ⊎ ((k.poke s.pid addr word s.world ≡ none)
            × (poke_text func addr word s
                ≡ exited (record s { output = (lit func ∷ []) ∷ s.output })))
  unfolding poke_text
  poke_text-cases func addr word s = elim (Option-cases (k.poke s.pid addr word s.world)) [
    | inl e ↦ inr (e, rw e)
    | inr (w, e) ↦ inl (w, e, rw e)
  ]

  remember-IsValid :
      (addr code : ℕ) (s : Sdb k)
      → IsValid s
      → is_running s.phase ≡ true
      → intext s.elf addr ≡ true
      → Keeps (remember addr code s)
  unfolding remember
  remember-IsValid addr code s v r t = elim (Bool-cases (has_addr s.bp_list addr)) [
    | inl e ↦ rw e v
    | inr e ↦ rw e (record {
      numbered = Numbered-append s.bp_list 0 _ v.numbered (omega arith);
      distinct = Distinct-append s.bp_list _ v.distinct e;
      in_text = InText-append s.elf s.bp_list _ v.in_text t;
      empty_in = EmptyIn-running s.phase _ r;
      pid_set = v.pid_set;
    })
  ]

  -- `break` keeps the invariant.
  pub bp-IsValid : (addr : ℕ) (s : Sdb k) → IsValid s → Keeps (bp addr s)
  unfolding bp
  bp-IsValid addr s v = elim (Bool-cases (is_running s.phase)) [
    | inr e ↦ rw e v
    | inl r ↦ elim (Bool-cases (intext s.elf addr)) [
      | inr e ↦ rw (r, e) v
      | inl t ↦ elim (Bool-cases (is_int3 (k.peek s.pid addr s.world))) [
        | inl e ↦ rw (r, t, e) v
        | inr e ↦
            elim (poke_text-cases "ptrace(POKETEXT)" addr (with_int3 (k.peek s.pid addr s.world))
              s) [
                | inl (w, p, q) ↦
                    rw (r, t, e, ◌>>◌, ◌>>=◌, q)
                      (remember-IsValid addr _ (record s { world = w }) v r t)
                | inr (p, q) ↦ rw (r, t, e, ◌>>◌, ◌>>=◌, q) tt
              ]
      ]
    ]
  ]

  removed-IsValid :
      (n : ℕ) (s : Sdb k)
      → IsValid s
      → is_running s.phase ≡ true
      → IsValid (record s { bp_list = renumber (erase s.bp_list n) n n })
  removed-IsValid n s v r = record {
    numbered = renumber-erase_all s.bp_list n v.numbered;
    distinct = Distinct-renumber _ n n (Distinct-erase s.bp_list n v.distinct);
    in_text = InText-renumber s.elf _ n n (InText-erase s.elf s.bp_list n v.in_text);
    empty_in = EmptyIn-running s.phase _ r;
    pid_set = v.pid_set;
  }

  del_found-IsValid :
      (n : ℕ) (b : Breakpoint) (s : Sdb k)
      → IsValid s
      → is_running s.phase ≡ true
      → Keeps (del_found n n b s)
  unfolding del_found
  del_found-IsValid n b s v r =
      elim (poke_text-cases "ptrace(PTRACE_POKETEXT)" b.addr b.orig_code s) [
        | inl (w, p, q) ↦ rw (◌>>◌, ◌>>=◌, q) (removed-IsValid n s v r)
        | inr (p, q) ↦ rw (◌>>◌, ◌>>=◌, q) tt
      ]

  -- `delete` keeps the invariant.
  pub del-IsValid : (id : ℤ) (s : Sdb k) → IsValid s → Keeps (del id s)
  unfolding del
  del-IsValid id s v = elim (Bool-cases (is_running s.phase)) [
    | inr e ↦ rw e v
    | inl r ↦ elim (Option-cases (find_id s.bp_list id)) [
      | inl e ↦ rw (r, e) v
      | inr (i, e) ↦
          let (same, b, here) = found-in_list s.bp_list id i v.numbered e in
          rw (r, e, same, here) (del_found-IsValid i b s v r)
    ]
  ]

-- Where the command comes back the list is this one.
abbrev pub KeepsList : {k : Kernel} {A : Type 0} → List Breakpoint → Outcome k A → Type 0
KeepsList bps (done a s) = s.bp_list ≡ bps
KeepsList bps (exited s) = Unit
KeepsList bps (fault why) = Unit
KeepsList bps blocked = Unit

module _ {k : Kernel} where
  -- Where `break` comes back from an address that the list has, the list is as it was.
  pub bp-KeepsList :
      (addr : ℕ) (s : Sdb k) → has_addr s.bp_list addr ≡ true → KeepsList s.bp_list (bp addr s)
  unfolding bp remember
  bp-KeepsList addr s h = elim (Bool-cases (is_running s.phase)) [
    | inr e ↦ rw e refl
    | inl r ↦ elim (Bool-cases (intext s.elf addr)) [
      | inr e ↦ rw (r, e) refl
      | inl t ↦ elim (Bool-cases (is_int3 (k.peek s.pid addr s.world))) [
        | inl e ↦ rw (r, t, e) refl
        | inr e ↦
            elim (poke_text-cases "ptrace(POKETEXT)" addr (with_int3 (k.peek s.pid addr s.world))
              s) [
                | inl (w, p, q) ↦ rw (r, t, e, ◌>>◌, ◌>>=◌, q, h) refl
                | inr (p, q) ↦ rw (r, t, e, ◌>>◌, ◌>>=◌, q) tt
              ]
      ]
    ]
  ]
