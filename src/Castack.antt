-- ===== src/Castack.antt =====
-- Instructions that take a stack pointer which is a CA: modules/common/ccsimics/castack.h.
mod Fixup
mod Restore
mod Tests
