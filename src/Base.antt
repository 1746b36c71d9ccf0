-- ===== src/Base.antt =====
-- The base model of pointers and data: modules/common/ccsimics/c3_base_model.h.
pub mod Words
pub mod RoundTrip
pub mod Access
mod Crossing
mod Tests
