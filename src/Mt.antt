-- ===== src/Mt.antt =====
-- src/kernel/mt: threads and the processors that run them.
pub mod Threads
