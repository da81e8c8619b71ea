-- ===== src/Lib.antt =====
-- Course work on the UNIX environment: hw3, a small C library over raw system calls (libmini);
-- hw2, a shared object that logs the file operations of a program (logger.so) and the program that
-- starts another with it; hw4, a debugger (sdb); hw1, a list of the open files of all processes,
-- in C and in C++; and one of the exercises on ptrace.
--
-- Base holds what the parts share: Boolean tests and the conditional, lists by native numbers,
-- signed integers with the conversions of C (Int), binary digits of words (Bits), a byte memory with
-- little-endian words (Memory), masks (Masks), and numbers read from text (Numbers).
--
-- Libmini models hw3/libmini.c and hw3/libmini.h.
--   Machine: the state is the byte memory, `errno` and the history of system calls (a ghost, which
--     the library never reads). A kernel is any function from the history, a call and memory to an
--     answer and the memory left; the answers of a real kernel are one such function.
--   Wrappers: every function that is a system call and WRAPPER_RETval or WRAPPER_RETptr, and `open`
--     of hw3/libmini64.asm under the name `open_path`. Reply: what holds for all of them.
--   Strings: `bzero`, `memset`, `strlen`. Only `strlen` takes fuel, with the amount that is enough.
--   Sigset: the operations on `sigset_t`. Signal: `sigaction`, `signal` and the rest.
--   Jump: `setjmp`, `longjmp` and `sleep` of hw3/libmini64.asm, on the registers that they save; the
--     words that are pushed and popped are local values. `myrt` and hw3/start.asm are not modelled:
--     a system call that does not come back, and the entry point.
--   Perror: `perror` and its table; `place` says where the literals of the program stand.
--   `-ret` at the least `long` and addresses past 2^64 are undefined in C and not modelled; nor is a
--   fault at an address that is not mapped.
--
-- Logger models hw2/hw2_so.c.
--   State: memory, the stream `output`, the pointers `ori_...`, the static buffers `link_dest` and
--     the history of calls. libc is any two functions from the history, a call and memory to a
--     number or a text. A call through a NULL pointer or stream is the outcome `crash`.
--   Log: `DLSYM`, `log`, `charBuf`, `getFileNameByFd`. Calls: the eighteen functions; `open` and
--     `open64` are `open_file` and `open_file64`. Request lists them for statements about all.
--   Launcher: hw2/hw2.cpp, which sets the variables that Log reads; `getopt`, with the order in which
--     it leaves `argv`, is a parameter, and so are the answers of `fork` and `dup`.
--   The text that fprintf makes of a format and its arguments is libc's, so a line of the log is the
--   call of fprintf. The mode that `open` takes from its variable arguments is an argument.
--
-- Debugger models hw4/hw4.cpp and hw4/hw4.h.
--   State: the globals, the output, and the kernel and libraries (ptrace, waitpid, fork, files,
--     capstone) as a record of functions on a world. `exit`, a `waitpid` that never comes back, and
--     what C++ leaves undefined, by its cause, are outcomes. A number that an `int`
--     cannot hold, for which `atoi` is undefined, stays what it is. The screen is a list of lines;
--     widths and fill characters are left out.
--   Breakpoints, Inspect, Control, Registers, Load, Vmmap and Shell: the commands; `get` and `set`
--     are `get_reg` and `set_reg`. `typed` and `script` are the loop of `main` on given lines.
--   Ptrace: what ptrace(2) promises. Host: what sdb relies on to keep its state.
--     Invariant: commands that keep it, and how they compose. Main: `main` with its arguments; the
--     text of an error is left out. Phases: the steps between NONLOAD, LOADED and RUNNING as a relation, and the commands
--     that take them.
--
-- Lsof models hw1/hw1.c.
--   Process: `struct pid_info_t`, the static buffers and the rows printed; /proc is a record of what
--     the calls answer, which stays the same for the whole run. A row is a record: its columns and
--     the header line are left out. Matching by regular expressions is a parameter.
--   Options: those of `main`. Row: `print_info`, the names of file types and the letters of
--     descriptors. Dirname: `dirname`, which cuts the buffer. Files: `get_file`, with one case for
--     each of its branches. Maps: `get_maps`, with the tokens of `strtok` as a list. Fds: `get_fds`.
--     Dump: `lsof_dumpinfo` and `main`.
--   A copy from NULL, a write in front of a buffer and a copy behind the end of `path` are the outcome
--   `none`; Buffers says when the last cannot be. What buffers on the stack hold at first is a
--   parameter, one text for each process.
--
-- LsofCpp models hw1/hw1.cpp, a second version of the same program.
--   Options: `filter`, `filtargu` and the loop over what `getopt` answers. Result: `struct process`
--     and `print_result`; the loop over "(deleted)" has as much fuel as the name has characters,
--     since each round makes the name shorter. Links: `file_type`, and the state: `errno` and the
--     rows printed. Maps: `file_maps`. Fd: `file_fd`. Main: `lsof` and `main`, with the ends of the
--     program as outcomes.
--
-- Traps models asm/ptrace/no_more_traps/test.cpp, a tracer that writes the bytes of a file over the
--   breakpoint instructions that a program stops at. The kernel is the one of Debugger.State, what
--   ptrace promises the one of Debugger.Ptrace. One round of the loop of `main` is modelled, not the
--   start of the program and the repetition of the loop: how long it runs is up to the program.
--
-- Not modelled besides: the programs of hw3 that try the library out (alarm1.c to alarm3.c, jmp1.c,
--   write1.c), the exercises in assembly and the programs that sdb is tried on, which have no state
--   of their own to keep; and asm/ptrace/traceme/traceme2.c, which finds out by a SIGTRAP whether it
--   is traced: its function `f`, which computes what it would print, has no body.
pub mod Base
pub mod Libmini
pub mod Logger
pub mod Debugger
pub mod Lsof
pub mod LsofCpp
pub mod Traps
