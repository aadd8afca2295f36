-- ===== src/Mm.antt =====
-- src/mm: the kernel's memory management.
pub mod FreeList
pub mod HoleList
pub mod Heap
pub mod MemoryManager
