-- ===== src/Hal.antt =====
-- src/kernel/HAL: the descriptors of the segments and the gates of the interrupts.
pub mod Descriptors
pub mod Gates
mod Tests
