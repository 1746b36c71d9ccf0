-- ===== src/Bipbip.antt =====
-- The BipBip block cipher of crypto/bipbip.cpp and crypto/bipbip.h, which encrypts 24 bits of a
-- pointer under a tweak: its tables, layers, rounds, key and tweak schedules, and the class
-- `PointerCipher24b`; then what is proved of each.
pub mod Tables
pub mod Layers
pub mod Rounds
pub mod Schedule
pub mod Cipher
pub mod Permutation
pub mod Substitution
pub mod Mixing
pub mod Inverse
pub mod Ranges
pub mod Caching
mod Tests
