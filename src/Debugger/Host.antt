-- ===== src/Debugger/Host.antt =====
-- What sdb (hw4/hw4.cpp) relies on to keep its state, and what `load` reads of a file.
use nctu_unix.Base.{ℕ, ◌≡◌, ◌≢◌, List, Option, some}
use nctu_unix.Debugger.State.{Kernel, Elf, Text}
use nctu_unix.Debugger.Load.{fread_at, header_size, string_header, text_header}

-- What `load` reads of a file, with what the two buffers held before.
abbrev pub headers : List ℕ → Elf → Option (Option (List ℕ))
headers file elf =
    let ehdr = fread_at file 0 header_size elf.ehdr in
    text_header file ehdr (string_header file ehdr elf.str_shdr)

-- `fork` gives the parent a process id.
pub record IsHost (k : Kernel) : Type 0 where
  pub forked : (path : Text) (w : k.World) (x : ℕ × k.World) → k.spawn path w ≡ some x → x.0 ≢ 0
