-- ===== src/LsofCpp.antt =====
-- hw1/hw1.cpp: the list of open files, written in C++.
pub mod Options
pub mod Result
pub mod Links
pub mod Maps
pub mod Fd
pub mod Main
mod Tests
