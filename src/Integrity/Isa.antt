-- ===== src/Integrity/Isa.antt =====
-- The ICV instructions of modules/common/ccsimics/integrity_isa.h: their bytes and their emulation.
-- The decoder library is the argument `registers`, which gives the two register operands of the four
-- bytes, or `none` where `xed_decode_register` fails its assertion.
use c3_simulator.Common.{
  ℕ, Bool, ltb, leb, ◌==◌, ◌&&◌, not, if◌then◌else◌, List, length, get_or, Option, some, ◌>>=◌,
}
use c3_simulator.Integrity.Machine.{Simulator, Options, Machine}
use c3_simulator.Integrity.Instructions.{invalidate_icv, initialize_icv, pre_init_icv}

pub data IntegrityInst : Type 0 where
  invicv initicv preiniticv other_inst : IntegrityInst

-- The number that is returned with it: `short n` is `-n`, `taken n` is `n`.
pub data Returned : Type 0 where
  short taken : ℕ → Returned

-- What `decode_cpu_bytes` gives, with the registers of the destination and the source.
pub record DecodedIcv : Type 0 where
  pub inst : IntegrityInst
  pub returned : Returned
  pub dest_ptr_reg : ℕ
  pub src_ptr_reg : ℕ

abbrev pub without_regs : IntegrityInst → Returned → DecodedIcv
without_regs i r = record { inst = i; returned = r; dest_ptr_reg = 0; src_ptr_reg = 0 }

unfoldable pub inv_of : ℕ × ℕ → DecodedIcv
inv_of (dest, src) = record {
  inst = if src == dest then invicv else other_inst;
  returned = taken (if src == dest then 4 else 0);
  dest_ptr_reg = dest;
  src_ptr_reg = src;
}

unfoldable pub init_of : ℕ × ℕ → DecodedIcv
init_of (dest, src) = record {
  inst = if not (src == dest) then initicv else preiniticv;
  returned = taken 4;
  dest_ptr_reg = dest;
  src_ptr_reg = src;
}

module _ (registers : List ℕ → Option (ℕ × ℕ)) where
  unfoldable pub decode_cpu_bytes : List ℕ → Option DecodedIcv
  decode_cpu_bytes bytes =
      if length bytes == 0
      then some (without_regs other_inst (short 1))
      else if not (get_or bytes 0 0 == 0xF0)
      then some (without_regs other_inst (taken 0))
      else if ltb (length bytes) 2
      then some (without_regs other_inst (short 2))
      else if ltb (length bytes) 3
      then some (without_regs other_inst (short 3))
      else if not (get_or bytes 2 0 == 0x2B) && not (get_or bytes 2 0 == 0x21)
      then some (without_regs other_inst (taken 0))
      else if ltb (length bytes) 4
      then some (without_regs other_inst (short 4))
      else if get_or bytes 2 0 == 0x2B && get_or bytes 3 0 == 0xc0
      then (do regs ← registers bytes; some (inv_of regs))
      else if get_or bytes 2 0 == 0x21 && leb 0xc0 (get_or bytes 3 0)
      then (do regs ← registers bytes; some (init_of regs))
      else some (without_regs other_inst (taken 0))

module _ (sim : Simulator) (o : Options) (is_enabled : Bool) (gpr : ℕ → ℕ) where
  unfoldable pub cc_invicv_emulation : DecodedIcv → Machine → Option Machine
  cc_invicv_emulation d s =
      if is_enabled then invalidate_icv sim o (gpr d.dest_ptr_reg) s else some s

  unfoldable pub emul_initicv : DecodedIcv → Machine → Option Machine
  emul_initicv d s =
      if is_enabled then initialize_icv sim o (gpr d.dest_ptr_reg) (gpr d.src_ptr_reg) s else some s

  unfoldable pub emul_preiniticv : DecodedIcv → Machine → Option Machine
  emul_preiniticv d s = if is_enabled then pre_init_icv sim (gpr d.dest_ptr_reg) s else some s

  -- The emulation that `decode` registers; the others are left to the simulator.
  unfoldable pub emulation : IntegrityInst → DecodedIcv → Machine → Option Machine
  emulation invicv d s = cc_invicv_emulation d s
  emulation initicv d s = emul_initicv d s
  emulation preiniticv d s = emul_preiniticv d s
  emulation other_inst d s = some s

  -- Decoding four bytes and running what is registered.
  unfoldable pub execute : (List ℕ → Option (ℕ × ℕ)) → List ℕ → Machine → Option Machine
  execute registers bytes s = do d ← decode_cpu_bytes registers bytes; emulation d.inst d s

pub data IcvText : Type 0 where
  invicv_text initicv_text preiniticv_text no_name : IcvText

unfoldable pub icv_text : IntegrityInst → IcvText
icv_text invicv = invicv_text
icv_text initicv = initicv_text
icv_text preiniticv = preiniticv_text
icv_text other_inst = no_name

unfoldable pub disassemble : (List ℕ → Option (ℕ × ℕ)) → List ℕ → Option (Returned × IcvText)
disassemble registers bytes = do
  d ← decode_cpu_bytes registers bytes
  some (d.returned, icv_text d.inst)
