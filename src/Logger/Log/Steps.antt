-- ===== src/Logger/Log/Steps.antt =====
-- What the macros and helpers of hw2/hw2_so.c do where the dynamic linker finds libc.
use Prim.Native.String.{String, ◌++◌ as str_append}
use mathlib.Core.Option
use text.Mathlib.TextPositions.{eq_refl}
use nctu_unix.Base.{◌≡◌, refl, false, List, ◌∷◌, [], Option, none, some, ℤ, eq_ℤ, codes}
use nctu_unix.Base.Memory.{Memory}
use nctu_unix.Logger.State.{
  Text, Arg, str, Call, dlopen, dlsym, original, readlink, fprintf, printf, Env, State, done,
  update, ◌>>=◌,
}
use nctu_unix.Logger.Log.{null, load_symbol, call_original, log, get_file_name_by_fd}

-- The dynamic linker finds libc and each function in it.
pub record IsResolving (e : Env) : Type 0 where
  pub opens : (h : List Call) (m : Memory) → eq_ℤ (e.number h (dlopen "libc.so.6") m).0 null ≡ false
  pub finds :
      (h : List Call) (f : String) (m : Memory) → eq_ℤ (e.number h (dlsym f) m).0 null ≡ false

-- The calls of functions of libc in a history, and the lines of the log.
abbrev pub originals : List Call → List Call
originals [] = []
originals (original f args ∷ cs) = original f args ∷ originals cs
originals (c ∷ cs) = originals cs

abbrev pub lines : List Call → List Call
lines [] = []
lines (fprintf f format args ∷ cs) = fprintf f format args ∷ lines cs
lines (c ∷ cs) = lines cs

-- The state after a call, and its answer.
abbrev pub after : Env → Call → State → State
after e c s = record s { memory = (e.number s.calls c s.memory).1; calls = c ∷ s.calls }

abbrev pub answer : Env → Call → State → ℤ
answer e c s = (e.number s.calls c s.memory).0

abbrev pub resolved : Env → String → State → State
resolved e f s =
    let t = after e (dlopen "libc.so.6") s in
    let u = after e (dlsym f) t in record u { ori = update s.ori f (answer e (dlsym f) t) }

module _ (e : Env) (r : IsResolving e) where
  pub load_symbol_lem : (f : String) (s : State) → load_symbol e f s ≡ done tt (resolved e f s)
  unfolding load_symbol
  load_symbol_lem f s = rw (r.opens s.calls s.memory, ◌>>=◌)

  pub call_original_lem :
      (f : String) (args : List Arg) (s : State)
      → eq_ℤ (s.ori f) null ≡ false
      → call_original e f args s ≡ done (answer e (original f args) s) (after e (original f args) s)
  unfolding call_original
  call_original_lem f args s h = rw (h)

module _ (e : Env) where
  pub log_lem :
      (format : String) (args : List Arg) (s : State)
      → eq_ℤ s.output null ≡ false
      → log e format args s
        ≡ done tt (after e (fprintf s.output (str_append "[logger] " format) args) s)
  unfolding log
  log_lem format args s h = simp (h, ◌>>=◌)

  -- The state after `getFileNameByFd`, by the link that was read.
  pub named : String → ℤ → State → Option Text → State
  named func fd s none =
      after e (printf "%s\n" (str (codes "fail to read link") ∷ []))
        (record s { calls = readlink fd ∷ s.calls })
  named func fd s (some dest) = record s {
    link_dest = update s.link_dest func dest;
    calls = readlink fd ∷ s.calls;
  }

  abbrev pub link_of : ℤ → State → Option Text
  link_of fd s = e.text s.calls (readlink fd) s.memory

  pub get_file_name_by_fd_lem :
      (func : String) (fd : ℤ) (s : State)
      → get_file_name_by_fd e func fd s ≡ done tt (named func fd s (link_of fd s))
  unfolding get_file_name_by_fd named
  get_file_name_by_fd_lem func fd s = by_link (link_of fd s) refl
    where
      by_link :
          (l : Option Text)
          → link_of fd s ≡ l
          → get_file_name_by_fd e func fd s ≡ done tt (named func fd s (link_of fd s))
      by_link none h = rw (h, ◌>>=◌, named)
      by_link (some dest) h = rw (h, ◌>>=◌, named)

module _ (e : Env) (func : String) (fd : ℤ) (s : State) where
  pub named-ori : (l : Option Text) (f : String) → (named e func fd s l).ori f ≡ s.ori f
  unfolding named
  named-ori none f = refl
  named-ori (some dest) f = refl

  pub named-link_dest :
      (l : Option Text) → (named e func fd s l).link_dest func ≡ Option.get_or l (s.link_dest func)
  unfolding named
  named-link_dest none = refl
  named-link_dest (some dest) = rw (eq_refl func)

  pub named-output : (l : Option Text) → (named e func fd s l).output ≡ s.output
  unfolding named
  named-output none = refl
  named-output (some dest) = refl

  pub named-originals :
      (l : Option Text) → originals (named e func fd s l).calls ≡ originals s.calls
  unfolding named
  named-originals none = refl
  named-originals (some dest) = refl

  pub named-lines : (l : Option Text) → lines (named e func fd s l).calls ≡ lines s.calls
  unfolding named
  named-lines none = refl
  named-lines (some dest) = refl

pub ruleset naming = (
  get_file_name_by_fd_lem, named-ori, named-link_dest, named-output, named-originals, named-lines,
)
