-- ===== src/Logger/Lines.antt =====
-- What hw2/hw2_so.c writes to its log, and when it opens it.
use Prim.Native.String.{String, ◌++◌ as str_append}
use mathlib.Core.Option
use nctu_unix.Base.{ℕ, ◌≡◌, refl, true, false, none, some, List, [], ◌∷◌}
use nctu_unix.Base.{ℤ, pos, eq_ℤ, codes}
use nctu_unix.Base.Numbers.{atoi}
use nctu_unix.Logger.State.{
  Text, Arg, str, num, Call, original, getenv, fdopen, fprintf, Env, State, Outcome, done, crash,
  ◌>>=◌,
}
use nctu_unix.Logger.Log.{null, log, open_output, char_buf}
use nctu_unix.Logger.Log.Steps.{
  IsResolving, originals, lines, naming, named, link_of, resolved, answer, load_symbol_lem,
  call_original_lem, log_lem,
}
use nctu_unix.Logger.Calls.{read}

abbrev pub Ensures {ℓ} : {A : Type ℓ} → (State → Type 0) → Outcome A → Type 0
Ensures P (done v s) = P s
Ensures P crash = ⊥

-- The log was closed in `s`; the stream f is the log now, it has the line asked for, and the calls
-- `opening` of libc were made for it.
abbrev pub Opened : State → List Call → ℤ → String → List Arg → State → Type 0
Opened s opening f format args s' =
    (s'.output ≡ f)
    × (originals s'.calls ≡ opening)
    × (lines s'.calls ≡ fprintf f (str_append "[logger] " format) args ∷ lines s.calls)

module _ (e : Env) (s : State) (format : String) (args : List Arg)
    (closed : eq_ℤ s.output null ≡ true) where
  abbrev asked_output : State
  asked_output = record s { calls = getenv "LOGGER_OUTPUT" ∷ s.calls }

  abbrev asked_stderr : State
  asked_stderr = record s { calls = getenv "LOGGER_STDERR" ∷ getenv "LOGGER_OUTPUT" ∷ s.calls }

  -- The first line of the log, with LOGGER_OUTPUT set and that file opened: the line goes to the
  -- stream that libc's `fopen` gave for the file, which is the log from then on.
  pub log_opens_file :
      (path : Text)
      → IsResolving e
      → e.text s.calls (getenv "LOGGER_OUTPUT") s.memory ≡ some path
      → let t = resolved e "fopen" asked_output in
        let c = original "fopen" (str path ∷ str (codes "w") ∷ []) in
        eq_ℤ (answer e c t) null ≡ false
        → Ensures
            (Opened s (c ∷ originals s.calls) (answer e c t) format args)
            (log e format args s)
  unfolding log open_output
  log_opens_file path r set f =
      simp (closed, set, load_symbol_lem e r, call_original_lem e r, r.finds, ◌>>=◌, Ensures)
        (rw f (refl, refl, refl))

  -- The first line of the log, without LOGGER_OUTPUT: the line goes to the stream that `fdopen`
  -- gives for the number in LOGGER_STDERR, and no function of libc that is logged is called.
  pub log_opens_descriptor :
      (text : Text)
      → e.text s.calls (getenv "LOGGER_OUTPUT") s.memory ≡ none
      → e.text asked_output.calls (getenv "LOGGER_STDERR") s.memory ≡ some text
      → let c = fdopen (atoi text) "w" in
        eq_ℤ (answer e c asked_stderr) null ≡ false
        → Ensures
            (Opened s (originals s.calls) (answer e c asked_stderr) format args)
            (log e format args s)
  unfolding log open_output
  log_opens_descriptor text unset set f =
      simp (closed, unset, set, ◌>>=◌, Ensures) (rw f (refl, refl, refl))

  -- With neither variable set, the first line of the log is a crash: `atoi` is given NULL.
  pub log_crashes :
      e.text s.calls (getenv "LOGGER_OUTPUT") s.memory ≡ none
      → e.text asked_output.calls (getenv "LOGGER_STDERR") s.memory ≡ none
      → log e format args s ≡ crash
  unfolding log open_output
  log_crashes unset unset' = simp (closed, unset, unset', ◌>>=◌)

module _ (e : Env) (r : IsResolving e) (s : State) (is_open : eq_ℤ s.output null ≡ false) where
  abbrev read_call : ℤ → ℕ → ℤ → Call
  read_call fd buf count = original "read" (num fd ∷ num (pos buf) ∷ num count ∷ [])

  -- Where `read` of libc is called: after the pointer and the file's name have been looked up.
  abbrev at_read : ℤ → State
  at_read fd = let t = resolved e "read" s in named e "read" fd t (link_of e fd t)

  -- The line that `read` adds to the open log: the target of the descriptor's link, or, where the
  -- link cannot be read, the name that the last successful `read` left in the buffer; the bytes
  -- that the caller's buffer holds before libc reads into it; the count and the result.
  pub read_line :
      (fd : ℤ) (buf : ℕ) (count : ℤ)
      → Ensures
          (λ s'.
            lines s'.calls
            ≡ fprintf s.output (str_append "[logger] " "%s(\"%s\", \"%s\", %zu) = %zd\n") (
                str (codes "read")
                ∷ str (Option.get_or (link_of e fd (resolved e "read" s)) (s.link_dest "read"))
                ∷ str (char_buf (resolved e "read" s).memory buf)
                ∷ num count
                ∷ num (answer e (read_call fd buf count) (at_read fd))
                ∷ [])
              ∷ lines s.calls)
          (read e fd buf count s)
  unfolding read
  read_line fd buf count =
      simp
        (
          load_symbol_lem e r,
          call_original_lem e r,
          log_lem,
          r.finds,
          is_open,
          ◌>>=◌,
          Ensures,
          naming,
        )
        refl
