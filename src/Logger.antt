-- ===== src/Logger.antt =====
-- hw2/hw2_so.c: the shared object logger.so, which logs calls of the C library.
pub mod State
pub mod Log
pub mod Calls
pub mod Request
pub mod CharBuf
pub mod Transparent
pub mod Lines
pub mod Launcher
mod Tests
