-- ===== src/Alloc.antt =====
-- malloc/cc_malloc.c: the allocation functions that hand out CAs, and the quarantine of freed
-- pointers.
pub mod Heap
pub mod Quarantine
pub mod Entry
pub mod Release
pub mod Queue
pub mod Free
mod Tests
