-- ===== src/Logger/State.antt =====
-- The state of hw2/hw2_so.c, the shared object that is preloaded to log calls of the C library,
-- and the library and the kernel behind it.
use Prim.Native.String.{String}
use text.Mathlib.Text.{◌==◌ as str_eq}
use nctu_unix.Base.{ℕ, List, ◌∷◌, Option, if◌then◌else◌, ℤ}
use nctu_unix.Base.Memory.{Memory}

-- The bytes of a C string.
abbrev pub Text : Type 0
Text = List ℕ

-- An argument of a call: a string, or a number or pointer.
pub data Arg : Type 0 where
  str : Text → Arg
  num : ℤ → Arg

-- What the object calls. `original` is the function of that name in libc, reached through its
-- pointer `ori_...`; `readlink` stands for the link /proc/self/fd/<fd>.
pub data Call : Type 0 where
  dlopen : String → Call
  dlsym : String → Call
  original : String → List Arg → Call
  realpath : Text → Call
  readlink : ℤ → Call
  fileno : ℤ → Call
  getenv : String → Call
  fdopen : ℤ → String → Call
  fprintf : ℤ → String → List Arg → Call
  printf : String → List Arg → Call

-- The answers, from all earlier calls, the call and memory: a number and the memory that the call
-- leaves, or a string if there is one.
pub record Env : Type 0 where
  pub number : List Call → Call → Memory → ℤ × Memory
  pub text : List Call → Call → Memory → Option Text

-- `calls` is the history, the last call first. `ori` holds the pointers `ori_...`, `link_dest` the
-- static buffer of that name in each function.
pub record State : Type 0 where
  pub memory : Memory
  pub output : ℤ
  pub ori : String → ℤ
  pub link_dest : String → Text
  pub calls : List Call

-- `crash` is a call through a NULL pointer, or a NULL stream or string.
pub data Outcome {ℓ} (A : Type ℓ) : Type ℓ where
  done : A → State → Outcome A
  crash : Outcome A

abbrev pub M {ℓ} : Type ℓ → Type ℓ
M A = State → Outcome A

abbrev pub pure {ℓ} : {A : Type ℓ} → A → M A
pure a s = done a s

infixl 5 ◌>>=◌ ◌>>◌
abbrev pub ◌>>=◌ {ℓ κ} : {A : Type ℓ} {B : Type κ} → M A → (A → M B) → M B
◌>>=◌ f g s = elim (f s) [ done a s' ↦ g a s' | crash ↦ crash ]

abbrev pub ◌>>◌ {ℓ κ} : {A : Type ℓ} {B : Type κ} → M A → M B → M B
f >> g = f >>= λ _. g

abbrev pub fail {ℓ} : {A : Type ℓ} → M A
fail s = crash

abbrev pub get : M State
get s = done s s

abbrev pub put : State → M (Unit {0})
put s' s = done tt s'

abbrev pub update {ℓ} : {A : Type ℓ} → (String → A) → String → A → String → A
update f k v j = if str_eq j k then v else f j

abbrev pub call : Env → Call → M ℤ
call e c s =
    let r = e.number s.calls c s.memory in done r.0 (record s { memory = r.1; calls = c ∷ s.calls })

abbrev pub call_text : Env → Call → M (Option Text)
call_text e c s = done (e.text s.calls c s.memory) (record s { calls = c ∷ s.calls })
