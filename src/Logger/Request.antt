-- ===== src/Logger/Request.antt =====
-- The calls that hw2/hw2_so.c intercepts, one by one.
use Prim.Native.String.{String}
use nctu_unix.Base.{ℕ, if◌then◌else◌, List, [], ◌∷◌, ℤ, pos}
use nctu_unix.Logger.State.{Text, Arg, str, num, Env, M}
use nctu_unix.Logger.Calls
use nctu_unix.Logger.Calls.{takes_no_mode}

-- A call of one of the eighteen functions.
pub data Request : Type 0 where
  chmod : Text → ℤ → Request
  chown : Text → ℤ → ℤ → Request
  creat : Text → ℤ → Request
  creat64 : Text → ℤ → Request
  fopen : Text → Text → Request
  fopen64 : Text → Text → Request
  fclose : ℤ → Request
  fread : ℕ → ℤ → ℤ → ℤ → Request
  fwrite : ℕ → ℤ → ℤ → ℤ → Request
  open_file : Text → ℤ → ℤ → Request
  open_file64 : Text → ℤ → ℤ → Request
  close : ℤ → Request
  read : ℤ → ℕ → ℤ → Request
  write : ℤ → ℕ → ℤ → Request
  remove : Text → Request
  rename : Text → Text → Request
  tmpfile : Request
  tmpfile64 : Request

-- The function that the object defines for it.
unfoldable pub run : Env → Request → M ℤ
run e (chmod p a) = Calls.chmod e p a
run e (chown p a b) = Calls.chown e p a b
run e (creat p a) = Calls.creat e p a
run e (creat64 p a) = Calls.creat64 e p a
run e (fopen p q) = Calls.fopen e p q
run e (fopen64 p q) = Calls.fopen64 e p q
run e (fclose f) = Calls.fclose e f
run e (fread b n k f) = Calls.fread e b n k f
run e (fwrite b n k f) = Calls.fwrite e b n k f
run e (open_file p f m) = Calls.open_file e p f m
run e (open_file64 p f m) = Calls.open_file64 e p f m
run e (close d) = Calls.close e d
run e (read d b n) = Calls.read e d b n
run e (write d b n) = Calls.write e d b n
run e (remove p) = Calls.remove e p
run e (rename p q) = Calls.rename e p q
run e tmpfile = Calls.tmpfile e
run e tmpfile64 = Calls.tmpfile64 e

-- The name that the caller used.
abbrev pub called_name : Request → String
called_name (chmod _ _) = "chmod"
called_name (chown _ _ _) = "chown"
called_name (creat _ _) = "creat"
called_name (creat64 _ _) = "creat64"
called_name (fopen _ _) = "fopen"
called_name (fopen64 _ _) = "fopen64"
called_name (fclose _) = "fclose"
called_name (fread _ _ _ _) = "fread"
called_name (fwrite _ _ _ _) = "fwrite"
called_name (open_file _ _ _) = "open"
called_name (open_file64 _ _ _) = "open64"
called_name (close _) = "close"
called_name (read _ _ _) = "read"
called_name (write _ _ _) = "write"
called_name (remove _) = "remove"
called_name (rename _ _) = "rename"
called_name tmpfile = "tmpfile"
called_name tmpfile64 = "tmpfile64"

-- The arguments that libc is to get: the caller's. `open` passes its third one only with flags that
-- create a file.
abbrev pub arguments : Request → List Arg
arguments (chmod p a) = str p ∷ num a ∷ []
arguments (chown p a b) = str p ∷ num a ∷ num b ∷ []
arguments (creat p a) = str p ∷ num a ∷ []
arguments (creat64 p a) = str p ∷ num a ∷ []
arguments (fopen p q) = str p ∷ str q ∷ []
arguments (fopen64 p q) = str p ∷ str q ∷ []
arguments (fclose f) = num f ∷ []
arguments (fread b n k f) = num (pos b) ∷ num n ∷ num k ∷ num f ∷ []
arguments (fwrite b n k f) = num (pos b) ∷ num n ∷ num k ∷ num f ∷ []
arguments (open_file p f m) =
    if takes_no_mode f then str p ∷ num f ∷ [] else str p ∷ num f ∷ num m ∷ []
arguments (open_file64 p f m) =
    if takes_no_mode f then str p ∷ num f ∷ [] else str p ∷ num f ∷ num m ∷ []
arguments (close d) = num d ∷ []
arguments (read d b n) = num d ∷ num (pos b) ∷ num n ∷ []
arguments (write d b n) = num d ∷ num (pos b) ∷ num n ∷ []
arguments (remove p) = str p ∷ []
arguments (rename p q) = str p ∷ str q ∷ []
arguments tmpfile = []
arguments tmpfile64 = []
