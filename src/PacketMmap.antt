-- ===== src/PacketMmap.antt =====
-- The PACKET_MMAP rings of src/backends/PacketMmap.
pub mod Tx
pub mod Rx
mod Tests
