-- ===== src/Lsof/Process.antt =====
-- What hw1/hw1.c keeps of a process, its static buffers, and the file system that it reads.
use nctu_unix.Base.{
  ℕ, zero, suc, Bool, ◌==◌, if◌then◌else◌, ltb, List, [], ◌∷◌, ◌++◌, take, drop, length, Option,
  codes,
}
use nctu_unix.Lsof.Options.{Text, Options}
use nctu_unix.Lsof.Row.{PidInfo, Row, print_info}

pub record Stat : Type 0 where
  pub st_mode : ℕ
  pub st_ino : ℕ
  pub st_uid : ℕ

-- What the calls answer for a path, `none` on an error: the whole run sees one state of /proc.
-- `readlink` is that with a buffer of PATH_MAX - 1 bytes, which cuts what is longer; `lines` are
-- those of a file, each with its newline; `entries` are those of a directory.
pub record Files : Type 0 where
  pub stat : Text → Option Stat
  pub readlink : Text → Option Text
  pub lines : Text → Option (List Text)
  pub entries : Text → Option (List Text)
  pub getpwuid : ℕ → Option Text

-- `struct pid_info_t`: `user` and `cmdline` are the bytes copied there, with or without a final 0.
pub record Process : Type 0 where
  pub pid : ℕ
  pub user : Text
  pub cmdline : Text
  pub path : Text
  pub parent_length : ℕ

-- The process, the static `buff` of `get_file` and that of `get_fds`, and the rows printed. A
-- buffer is zero behind the bytes that are listed.
pub record State : Type 0 where
  pub process : Process
  pub file_buff : List ℕ
  pub fd_buff : List ℕ
  pub out : List Row

-- USER_DISPLAY_MAX and CMD_DISPLAY_MAX.
abbrev pub user_max : ℕ
user_max = 11

abbrev pub cmd_max : ℕ
cmd_max = 10

-- A member that holds no final 0 is read on into the next one.
abbrev pub shown_cmdline : Process → Text
shown_cmdline p = if ltb (length p.cmdline) cmd_max then p.cmdline else p.cmdline ++ p.path

abbrev pub shown_user : Process → Text
shown_user p = if ltb (length p.user) user_max then p.user else p.user ++ shown_cmdline p

abbrev pub shown_info : Process → PidInfo
shown_info p = record { pid = p.pid; user = shown_user p; cmdline = shown_cmdline p }

-- `strncat(info->path, …)`, which stays within PATH_MAX for the paths of /proc.
abbrev pub strncat : Text → State → State
strncat text s = record s { process = record s.process { path = s.process.path ++ text } }

-- `info->path[length] = '\0'`.
abbrev pub cut_path : ℕ → State → State
cut_path n s = record s { process = record s.process { path = take n s.process.path } }

-- `print_info` of the process.
unfoldable pub print : (Text → Text → Bool) → Options → Text → Text → Text → Text → State → State
print matches o fd type inode file s = record s {
  out =
      print_info matches o
        (record { info = shown_info s.process; fd = fd; type = type; inode = inode; file = file })
        s.out;
}

abbrev pub denied : Text
denied = codes " (Permission denied)"

-- The C string at the start of a buffer.
abbrev pub c_string : List ℕ → Text
c_string [] = []
c_string (c ∷ cs) = if c == 0 then [] else c ∷ c_string cs

abbrev pub put_zero : ℕ → List ℕ → List ℕ
put_zero i [] = []
put_zero zero (c ∷ cs) = 0 ∷ cs
put_zero (suc i) (c ∷ cs) = c ∷ put_zero i cs

-- What `readlink` writes, with no final 0.
abbrev pub overwrite : Text → List ℕ → List ℕ
overwrite link buff = link ++ drop (length link) buff

-- BUF_MAX, and whether `strcpy` into `path[BUF_MAX]` stays within it.
abbrev pub buf_max : ℕ
buf_max = 1024

abbrev pub fits : Text → Bool
fits text = ltb (length text) buf_max
