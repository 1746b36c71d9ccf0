-- ===== src/Tripwire.antt =====
-- Copies that keep their tripwires, REP MOVSB with a prefix: modules/common/ccsimics/rep_movsb_tripwire.h.
mod Copy
mod Modes
mod Tests
