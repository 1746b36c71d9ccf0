-- ===== src/Integrity.antt =====
-- The integrity checks of memory accesses: modules/common/ccsimics/integrity.h, with the layout of
-- an integrity check value of c3lib/c3/generic/icv.h.
mod Icv
pub mod Machine
pub mod Check
mod Granule
mod Step
mod Access
mod Kept
mod Loop
mod Faults
mod Passes
mod Invalidate
mod Lifecycle
mod Preinit
mod Sound
mod Accesses
mod Changes
mod Reachable
mod Failures
pub mod Instructions
pub mod Samples
mod Isa
mod Execute
mod Tests
