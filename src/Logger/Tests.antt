-- ===== src/Logger/Tests.antt =====
-- Runs of the logger of hw2/hw2_so.c, and its theorems at them.
use Prim.Native.String.{◌++◌ as str_append}
use text.Mathlib.Text.{◌==◌ as str_eq}
use nctu_unix.Base.{◌≤◌, ◌≡◌, refl, ◌==◌, if◌then◌else◌, List, [], ◌∷◌, length, Option, none, some}
use nctu_unix.Base.{ℤ, pos, codes}
use nctu_unix.Base.Memory.{Memory}
use nctu_unix.Logger.State.{
  Text, str, num, Call, dlopen, dlsym, original, readlink, getenv, fdopen, fprintf, Env, State,
}
use nctu_unix.Logger.Log.{char_buf, log}
use nctu_unix.Logger.Log.Steps.{IsResolving, lines}
use nctu_unix.Logger.Calls.{read}
use nctu_unix.Logger.CharBuf.{char_buf_fits, AllPrint}
use nctu_unix.Logger.Transparent
use nctu_unix.Logger.Transparent.{run-Forwards, Forwards}
use nctu_unix.Logger.Request.{run, Request}
use nctu_unix.Logger.Lines
use nctu_unix.Logger.Lines.{read_line, log_opens_file, log_opens_descriptor, Opened}

-- libc is found, its functions answer 3, and LOGGER_STDERR is 4; a link leads to /tmp/a.
abbrev numbers : List Call → Call → Memory → ℤ × Memory
numbers h (dlopen _) m = (pos 1, m)
numbers h (dlsym _) m = (pos 2, m)
numbers h (original _ _) m = (pos 3, m)
numbers h (fdopen _ _) m = (pos 5, m)
numbers h _ m = (pos 0, m)

abbrev texts : Option Text → Option Text → List Call → Call → Memory → Option Text
texts file fd h (readlink _) m = some (codes "/tmp/a")
texts file fd h (getenv v) m = if str_eq v "LOGGER_OUTPUT" then file else fd
texts file fd h _ m = none

abbrev libc : Option Text → Option Text → Env
libc file fd = record { number = numbers; text = texts file fd }

libc-IsResolving : (file fd : Option Text) → IsResolving (libc file fd)
libc-IsResolving file fd = record { opens = λ h m. refl; finds = λ h f m. refl }

-- A buffer with "hi" and a newline at 64.
abbrev buffer : Memory
buffer a = if a == 64 then b'h' else if a == 65 then b'i' else if a == 66 then 10 else 0

abbrev start : ℤ → State
start f = record { memory = buffer; output = f; ori = λ _. pos 0; link_dest = λ _. []; calls = [] }

char_buf_fits_example : (length (char_buf buffer 64) ≤ 31) × AllPrint (char_buf buffer 64)
char_buf_fits_example = char_buf_fits buffer 64

run-Forwards_example :
    Transparent.Ensures
      (Forwards
        (libc none none)
        (start (pos 5))
        "rename"
        (original "rename" (str (codes "a") ∷ str (codes "b") ∷ [])))
      (run (libc none none) (Request.rename (codes "a") (codes "b")) (start (pos 5)))
run-Forwards_example =
    run-Forwards (libc none none) (libc-IsResolving none none) (start (pos 5)) refl
      (Request.rename (codes "a") (codes "b"))

read_line_example :
    Lines.Ensures
      (λ s'.
        lines s'.calls
        ≡ fprintf (pos 5) (str_append "[logger] " "%s(\"%s\", \"%s\", %zu) = %zd\n") (
            str (codes "read")
            ∷ str (codes "/tmp/a")
            ∷ str (char_buf buffer 64)
            ∷ num (pos 10)
            ∷ num (pos 3)
            ∷ [])
          ∷ [])
      (read (libc none none) (pos 0) 64 (pos 10) (start (pos 5)))
read_line_example =
    read_line (libc none none) (libc-IsResolving none none) (start (pos 5)) refl (pos 0) 64 (pos 10)

log_opens_file_example :
    Lines.Ensures
      (Opened
        (start (pos 0))
        (original "fopen" (str (codes "out") ∷ str (codes "w") ∷ []) ∷ [])
        (pos 3)
        "%s()"
        [])
      (log (libc (some (codes "out")) none) "%s()" [] (start (pos 0)))
log_opens_file_example =
    log_opens_file (libc (some (codes "out")) none) (start (pos 0)) "%s()" [] refl (codes "out")
      (libc-IsResolving (some (codes "out")) none) refl refl

log_opens_descriptor_example :
    Lines.Ensures
      (Opened (start (pos 0)) [] (pos 5) "%s()" [])
      (log (libc none (some (codes "4"))) "%s()" [] (start (pos 0)))
log_opens_descriptor_example =
    log_opens_descriptor (libc none (some (codes "4"))) (start (pos 0)) "%s()" [] refl (codes "4")
      refl refl refl
