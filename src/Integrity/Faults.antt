-- ===== src/Integrity/Faults.antt =====
-- What a memory access raises: modules/common/ccsimics/integrity.h.
use c3_simulator.Common.{ℕ, ◌+◌, ◌-◌, ◌/◌}
use c3_simulator.IcvMap.Page.{IcvMap}
use c3_simulator.Integrity.Machine.{Machine}

-- The slots from the one of the first byte to the one of the last byte.
abbrev pub slots : ℕ → ℕ → ℕ
slots la size = (la + size - 1) / 8 - la / 8 + 1
