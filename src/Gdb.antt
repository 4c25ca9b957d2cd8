-- ===== src/Gdb.antt =====
-- gdb_protocol.c and the scanner of gdb's packets: the remote protocol that the simulator speaks.
pub mod Packet
pub mod Scanner
pub mod Safety
pub mod Commands
