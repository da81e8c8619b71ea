-- ===== src/Logger/Transparent.antt =====
-- The functions of hw2/hw2_so.c stand in for those of libc without a caller noticing.
use Prim.Native.String.{String}
use nctu_unix.Base.{◌≡◌, refl, false, Bool-cases, inl, inr}
use nctu_unix.Base.{List, [], ◌∷◌, ℤ, eq_ℤ, codes}
use nctu_unix.Base.Memory.{Memory}
use nctu_unix.Logger.State.{
  Arg, str, num, Call, original, fprintf, Env, State, Outcome, done, crash, ◌>>=◌,
}
use nctu_unix.Logger.Log.{null}
use nctu_unix.Logger.Log.Steps.{
  IsResolving, originals, lines, naming, load_symbol_lem, call_original_lem, log_lem,
}
use nctu_unix.Logger.Request.{Request, run, called_name, arguments}
use nctu_unix.Logger.Request.{
  chmod, chown, creat, creat64, fopen, fopen64, fclose, fread, fwrite, open_file, open_file64,
  close, read, write, remove, rename, tmpfile, tmpfile64,
}
use nctu_unix.Logger.Calls
use nctu_unix.Logger.Calls.{takes_no_mode}

abbrev pub Ensures : (ℤ → State → Type 0) → Outcome ℤ → Type 0
Ensures P (done v s) = P v s
Ensures P crash = ⊥

abbrev pub EndsIn : List Arg → Arg → Type 0
EndsIn [] a = ⊥
EndsIn (b ∷ []) a = b ≡ a
EndsIn (b ∷ c ∷ r) a = EndsIn (c ∷ r) a

-- From `s`, the call `c` of libc was made and no other; the result v is what libc answered; one
-- line was added to the open log, from the name of the function to the result.
abbrev pub Forwards : Env → State → String → Call → ℤ → State → Type 0
Forwards e s func c v s' =
    (originals s'.calls ≡ c ∷ originals s.calls)
    × ((h : List Call) × (m : Memory) × ((e.number h c m).0 ≡ v))
    × ((format : String) × (rest : List Arg) × (lines s'.calls
          ≡ fprintf s.output format (str (codes func) ∷ rest) ∷ lines s.calls)
        × EndsIn rest (num v))
    × (s'.output ≡ s.output)

module _ (e : Env) (r : IsResolving e) (s : State) (is_open : eq_ℤ s.output null ≡ false) where
  -- With the dynamic linker finding libc and the log open, every one of the eighteen functions
  -- returns; it has called its namesake in libc once, with the caller's arguments, and no other
  -- function of libc, gives back what that answered, and has added one line to the log, which
  -- begins with its name and ends with the result.
  pub run-Forwards :
      (q : Request)
      → Ensures (Forwards e s (called_name q) (original (called_name q) (arguments q))) (run e q s)
  unfolding run Calls.chmod Calls.chown Calls.creat Calls.creat64 Calls.fopen Calls.fopen64
      Calls.fclose Calls.fread Calls.fwrite Calls.open_file Calls.open_file64 Calls.close Calls.read
      Calls.write Calls.remove Calls.rename Calls.tmpfile Calls.tmpfile64
  run-Forwards (chmod p a) =
      simp (load_symbol_lem e r, call_original_lem e r, log_lem, r.finds, is_open, ◌>>=◌, Ensures)
        (refl, (_, _, refl), (_, _, refl, refl), refl)
  run-Forwards (chown p a b) =
      simp (load_symbol_lem e r, call_original_lem e r, log_lem, r.finds, is_open, ◌>>=◌, Ensures)
        (refl, (_, _, refl), (_, _, refl, refl), refl)
  run-Forwards (creat p a) =
      simp (load_symbol_lem e r, call_original_lem e r, log_lem, r.finds, is_open, ◌>>=◌, Ensures)
        (refl, (_, _, refl), (_, _, refl, refl), refl)
  run-Forwards (creat64 p a) =
      simp (load_symbol_lem e r, call_original_lem e r, log_lem, r.finds, is_open, ◌>>=◌, Ensures)
        (refl, (_, _, refl), (_, _, refl, refl), refl)
  run-Forwards (fopen p q) =
      simp (load_symbol_lem e r, call_original_lem e r, log_lem, r.finds, is_open, ◌>>=◌, Ensures)
        (refl, (_, _, refl), (_, _, refl, refl), refl)
  run-Forwards (fopen64 p q) =
      simp (load_symbol_lem e r, call_original_lem e r, log_lem, r.finds, is_open, ◌>>=◌, Ensures)
        (refl, (_, _, refl), (_, _, refl, refl), refl)
  run-Forwards (fclose f) =
      simp
        (
          load_symbol_lem e r,
          call_original_lem e r,
          log_lem,
          r.finds,
          is_open,
          ◌>>=◌,
          Ensures,
          naming,
        )
        (refl, (_, _, refl), (_, _, refl, refl), refl)
  run-Forwards (fread b n k f) =
      simp
        (
          load_symbol_lem e r,
          call_original_lem e r,
          log_lem,
          r.finds,
          is_open,
          ◌>>=◌,
          Ensures,
          naming,
        )
        (refl, (_, _, refl), (_, _, refl, refl), refl)
  run-Forwards (fwrite b n k f) =
      simp
        (
          load_symbol_lem e r,
          call_original_lem e r,
          log_lem,
          r.finds,
          is_open,
          ◌>>=◌,
          Ensures,
          naming,
        )
        (refl, (_, _, refl), (_, _, refl, refl), refl)
  run-Forwards (open_file p f m) = elim (Bool-cases (takes_no_mode f)) [
    | inl h ↦
        simp
          (h, load_symbol_lem e r, call_original_lem e r, log_lem, r.finds, is_open, ◌>>=◌, Ensures)
          (refl, (_, _, refl), (_, _, refl, refl), refl)
    | inr h ↦
        simp
          (h, load_symbol_lem e r, call_original_lem e r, log_lem, r.finds, is_open, ◌>>=◌, Ensures)
          (refl, (_, _, refl), (_, _, refl, refl), refl)
  ]
  run-Forwards (open_file64 p f m) = elim (Bool-cases (takes_no_mode f)) [
    | inl h ↦
        simp
          (h, load_symbol_lem e r, call_original_lem e r, log_lem, r.finds, is_open, ◌>>=◌, Ensures)
          (refl, (_, _, refl), (_, _, refl, refl), refl)
    | inr h ↦
        simp
          (h, load_symbol_lem e r, call_original_lem e r, log_lem, r.finds, is_open, ◌>>=◌, Ensures)
          (refl, (_, _, refl), (_, _, refl, refl), refl)
  ]
  run-Forwards (close d) =
      simp
        (
          load_symbol_lem e r,
          call_original_lem e r,
          log_lem,
          r.finds,
          is_open,
          ◌>>=◌,
          Ensures,
          naming,
        )
        (refl, (_, _, refl), (_, _, refl, refl), refl)
  run-Forwards (read d b n) =
      simp
        (
          load_symbol_lem e r,
          call_original_lem e r,
          log_lem,
          r.finds,
          is_open,
          ◌>>=◌,
          Ensures,
          naming,
        )
        (refl, (_, _, refl), (_, _, refl, refl), refl)
  run-Forwards (write d b n) =
      simp
        (
          load_symbol_lem e r,
          call_original_lem e r,
          log_lem,
          r.finds,
          is_open,
          ◌>>=◌,
          Ensures,
          naming,
        )
        (refl, (_, _, refl), (_, _, refl, refl), refl)
  run-Forwards (remove p) =
      simp (load_symbol_lem e r, call_original_lem e r, log_lem, r.finds, is_open, ◌>>=◌, Ensures)
        (refl, (_, _, refl), (_, _, refl, refl), refl)
  run-Forwards (rename p q) =
      simp (load_symbol_lem e r, call_original_lem e r, log_lem, r.finds, is_open, ◌>>=◌, Ensures)
        (refl, (_, _, refl), (_, _, refl, refl), refl)
  run-Forwards tmpfile =
      simp (load_symbol_lem e r, call_original_lem e r, log_lem, r.finds, is_open, ◌>>=◌, Ensures)
        (refl, (_, _, refl), (_, _, refl, refl), refl)
  run-Forwards tmpfile64 =
      simp (load_symbol_lem e r, call_original_lem e r, log_lem, r.finds, is_open, ◌>>=◌, Ensures)
        (refl, (_, _, refl), (_, _, refl, refl), refl)
