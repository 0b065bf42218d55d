-- ===== src/Transport.antt =====
-- src/transport: how packets travel between participants.
pub mod Shm
pub mod Tcp
pub mod Manager
