-- ===== src/Shadow.antt =====
-- Shadow return addresses: modules/common/ccsimics/shadow_rip.h.
mod State
mod Fixed
mod Replace
mod Slot
mod Smm
mod Branch
mod Jump
mod Stack
mod Calls
mod Tests
