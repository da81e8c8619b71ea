-- ===== src/Debugger.antt =====
-- hw4/hw4.cpp and hw4/hw4.h: sdb, a debugger for one traced program.
pub mod State
pub mod Ptrace
pub mod Breakpoints
pub mod Invariant
pub mod Inspect
pub mod Control
pub mod Registers
pub mod Load
pub mod Host
pub mod Vmmap
pub mod Shell
pub mod Main
pub mod Phases
pub mod Toy
pub mod Tests
