-- ===== src/Memory.antt =====
-- namespace Memory of tools/utils/MemoryMap.hxx: the shadow memory of the profiler, in pages.
pub mod Validity
pub mod Bits
pub mod Page
pub mod Map
pub mod Values
