-- ===== src/Libmini.antt =====
-- hw3/libmini.c and hw3/libmini.h: a small C library over raw system calls.
pub mod Machine
pub mod Wrappers
pub mod Strings
pub mod Sigset
pub mod Signal
pub mod Perror
pub mod Jump
mod Tests
