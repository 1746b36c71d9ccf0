-- ===== src/Data.antt =====
-- The encryption of data by its address: crypto/ascon_cipher.cpp and `CCDataEncryption` of
-- crypto/cc_encoding.h.
pub mod Ascon
pub mod Countermode
pub mod Stream
mod Tests
