-- ===== src/Mk2.antt =====
-- The JTAG ICE mkII protocol: src/jtag2io.cc and the other jtag2 files.
pub mod Frame
pub mod Command
pub mod Breakpoints
pub mod Memory
pub mod Run
pub mod Setup
pub mod Programmer
