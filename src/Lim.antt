-- ===== src/Lim.antt =====
-- malloc/lim_ptr_encoding.h: pointers that carry the size of their slot and a tag, and the metadata
-- with the bounds of an allocation that stands in the middle of its slot.
pub mod Pointer
pub mod Bounds
pub mod Placement
pub mod Metadata
pub mod Memory
pub mod Around
pub mod Fields
pub mod Roundtrip
pub mod Pointers
mod Tests
