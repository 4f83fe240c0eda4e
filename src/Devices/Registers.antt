-- ===== src/Devices/Registers.antt =====
-- src/ioreg.cc: the I/O registers of the devices, a table for each family.
pub mod Atmega16
pub mod Atmega162
pub mod Atmega169
pub mod Atmega32
pub mod Atmega128
pub mod Iocan128
