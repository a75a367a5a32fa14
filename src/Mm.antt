-- ===== src/Mm.antt =====
-- src/kernel/mm: the memory management of the kernel.
pub mod Alloc
pub mod FreeStack
pub mod Heap
pub mod Invalid
pub mod Pages
pub mod Start
pub mod Tables
