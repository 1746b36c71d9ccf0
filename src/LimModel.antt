-- ===== src/LimModel.antt =====
-- Memory accesses through pointers with a slot size and a tag: modules/lim_model/model.cpp.
mod State
mod Memory
mod Before
mod Access
mod Callback
mod Bytes
mod Mapped
mod Views
mod Faults
mod Parts
mod Places
mod Spliced
mod Displaced
mod Refines
mod Logical
mod Shifted
mod Moved
mod Cut
mod ShiftedWrite
mod Words
mod Lookup
mod Checks
mod Safety
mod Tests
