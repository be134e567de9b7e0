-- ===== src/GdbStub.antt =====
-- The remote debugging stub, src/gdbstub.
mod Examples
pub mod Hex
pub mod Registers
pub mod Target
pub mod Packets
