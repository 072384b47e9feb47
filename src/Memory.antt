-- ===== src/Memory.antt =====
-- ase/memory.cc: the arena allocator. Extents: the free list of SequentialFitAllocator with its
-- operations. Bytes, Scan, Fit: lemmas on it. Release, Alloc: the operations against the set of free
-- bytes. RoundTrip: one after the other.
pub mod Extents
pub mod Bytes
pub mod Scan
pub mod Fit
pub mod Release
pub mod Alloc
pub mod RoundTrip
pub mod Tests
