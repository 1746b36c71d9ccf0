-- ===== src/Ca.antt =====
-- Cryptographic addresses (CAs): their layout in c3lib/c3/generic/ca.h, the choice of a power-of-two
-- slot in malloc/try_box.h, and their encoding in crypto/cc_encoding.h; then what is proved of them.
pub mod Format
pub mod Boxing
pub mod Encoding
pub mod Fields
pub mod Slots
pub mod Decoding
pub mod Isa
pub mod Allocation
pub mod Instructions
pub mod Emulation
mod Tests
