-- ===== src/Integrity/Execute.antt =====
-- The instruction INVICV from its bytes to the accesses after it:
-- modules/common/ccsimics/integrity_isa.h.
use c3_simulator.Common.{
  ℕ, ◌≡◌, ◌<◌, ◌^◌, ap, ◌∙◌, true, false, if◌then◌else◌, List, [], ◌∷◌, Option, some, bind_some,
  ==_refl,
}
use c3_simulator.IcvMap.Page.{IcvMap, map_get}
use c3_simulator.IcvMap.Sparse.{IsWf}
use c3_simulator.Integrity.Icv.{icv_addr}
use c3_simulator.Integrity.Machine.{Rw, Simulator, Options, Machine}
use c3_simulator.Integrity.Check.{set_or_check_icv}
use c3_simulator.Integrity.Granule.{Checking, faulting}
use c3_simulator.Integrity.Step.{faults}
use c3_simulator.Integrity.Access.{IsPhysical, index}
use c3_simulator.Integrity.Invalidate.{PointsTo, invalidate_icv-set_or_check_icv}
use c3_simulator.Integrity.Instructions.{invalidate_icv}
use c3_simulator.Integrity.Isa.{
  invicv, other_inst, inv_of, DecodedIcv, taken, decode_cpu_bytes, cc_invicv_emulation, emulation,
  execute,
}

abbrev pub invicv_bytes : ℕ → List ℕ
invicv_bytes b = 0xF0 ∷ b ∷ 0x2B ∷ 0xc0 ∷ []

invicv_of : ℕ → DecodedIcv
invicv_of r = record { inst = invicv; returned = taken 4; dest_ptr_reg = r; src_ptr_reg = r }

inv_of_same : (r : ℕ) → inv_of (r, r) ≡ invicv_of r
unfolding inv_of invicv_of
inv_of_same r =
    ap
      (λ b. record {
        inst = if b then invicv else other_inst;
        returned = taken (if b then 4 else 0);
        dest_ptr_reg = r;
        src_ptr_reg = r;
      })
      (==_refl r)

decode_lem :
    (registers : List ℕ → Option (ℕ × ℕ)) (b r : ℕ)
    → registers (invicv_bytes b) ≡ some (r, r)
    → decode_cpu_bytes registers (invicv_bytes b) ≡ some (invicv_of r)
unfolding decode_cpu_bytes
decode_lem registers b r found = bind_some _ found ∙ ap some (inv_of_same r)

execute_lem :
    (sim : Simulator) (o : Options) (gpr : ℕ → ℕ) (registers : List ℕ → Option (ℕ × ℕ)) (b r : ℕ)
    (s : Machine)
    → registers (invicv_bytes b) ≡ some (r, r)
    → execute sim o true gpr registers (invicv_bytes b) s ≡ invalidate_icv sim o (gpr r) s
unfolding execute emulation cc_invicv_emulation invicv_of
execute_lem sim o gpr registers b r s found = bind_some _ (decode_lem registers b r found)

-- When the decoder library gives one register twice for the bytes F0 b 2B C0, the register holds a
-- CA that points to user space and whose ICV a well-formed map holds there, with the instructions
-- and the checks on, no pointer corrected and no fault suppressed, and 64-bit translations,
-- decoding and emulating these bytes succeeds, and after that every access to the granule, by
-- whatever address of user space and pointer, raises a fault, if the faults for that kind of access
-- are on.
pub execute-set_or_check_icv :
    (sim : Simulator) (o : Options) (gpr : ℕ → ℕ) (registers : List ℕ → Option (ℕ × ℕ)) (b r la : ℕ)
    (m : IcvMap) (s : Machine)
    → registers (invicv_bytes b) ≡ some (r, r)
    → PointsTo s (gpr r) la
    → Checking o s m
    → IsWf m
    → IsPhysical sim
    → map_get m (index sim la) ≡ icv_addr (gpr r)
    → (s1 : Machine) × (execute sim o true gpr registers (invicv_bytes b) s ≡ some s1)
      × ((op : Rw) (la' ca : ℕ)
          → faulting o op ≡ true
          → la' < 2 ^ 47
          → index sim la' ≡ index sim la
          → (s2 : Machine) × (set_or_check_icv sim o la' ca op s1 ≡ some (false, s2))
            × (faults s1.calls < faults s2.calls))
execute-set_or_check_icv sim o gpr registers b r la m s found p h wf phys own =
    let (s1, e, after) = invalidate_icv-set_or_check_icv sim o (gpr r) la m s p h wf phys own in
    (s1, execute_lem sim o gpr registers b r s found ∙ e, after)
