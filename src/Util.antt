-- ===== src/Util.antt =====
-- src/util: the checksum and the containers that the bus is built from.
pub mod Crc32
pub mod Timer
pub mod Mpsc
pub mod Pool
