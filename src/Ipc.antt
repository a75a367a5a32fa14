-- ===== src/Ipc.antt =====
-- src/kernel/ipc: what processes exchange.
pub mod Msg
pub mod Sem
pub mod Shm
