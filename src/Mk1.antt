-- ===== src/Mk1.antt =====
-- The protocol of the JTAG ICE mkI: src/jtag1.h, src/jtagio.cc, src/jtagbp.cc, src/jtagrw.cc,
-- src/jtagrun.cc and src/jtagmisc.cc.
pub mod Io
pub mod Breakpoints
pub mod Memory
pub mod Setup
