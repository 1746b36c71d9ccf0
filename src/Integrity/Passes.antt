-- ===== src/Integrity/Passes.antt =====
-- When a memory access raises no fault: modules/common/ccsimics/integrity.h.
use c3_simulator.Common.{ℕ, ◌≡◌, false}
use c3_simulator.IcvMap.Page.{IcvMap, map_get}
use c3_simulator.Integrity.Icv.{is_icv_uninitialized}
use c3_simulator.Integrity.Machine.{Rw, read, write, Simulator, Machine}
use c3_simulator.Integrity.Check.{la_to_check, ca_to_check}
use c3_simulator.Integrity.Granule.{mismatch}
use c3_simulator.Integrity.Access.{index}

-- The access has the ICV that the granule holds, and a read finds the granule initialized.
pub Passes : Rw → IcvMap → ℕ → ℕ → Type 0
Passes write m i ca = mismatch m i ca ≡ false
Passes read m i ca = (is_icv_uninitialized (map_get m i) ≡ false) × (mismatch m i ca ≡ false)

module _ (sim : Simulator) (op : Rw) (m : IcvMap) (s : Machine) (la : ℕ) where
  pub SlotPasses : ℕ → Type 0
  SlotPasses k = Passes op m (index sim (la_to_check la k)) (ca_to_check s k)
