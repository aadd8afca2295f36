-- ===== src/Arch.antt =====
-- src/arch/x86_64: what is particular to the processor.
pub mod PhysicalMem
pub mod VirtualMem
pub mod Paging
pub mod Mpk
