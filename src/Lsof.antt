-- ===== src/Lsof.antt =====
-- hw1/hw1.c: a program that lists the open files of all processes.
pub mod Options
pub mod Row
pub mod Process
pub mod Dirname
pub mod Files
pub mod Maps
pub mod Fds
pub mod Buffers
pub mod Dump
pub mod Tests
