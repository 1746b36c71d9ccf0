-- ===== src/Tripwire/Copy.antt =====
-- The class RepMovsTripwire of modules/common/ccsimics/rep_movsb_tripwire.h. The decoder library is an
-- argument, which gives what the class asks of a decoded instruction, or `none` for an error.
use c3_simulator.Common.{
  ℕ, ◌/◌, ◌%◌, ◌^◌, Bool, true, false, ◌==◌, ◌&&◌, not, if◌then◌else◌, Option, none, some, List,
  ◌>>=◌,
}
use c3_simulator.Integrity.Machine.{
  Simulator, Machine, SuppressMode, suppress_none, suppress_strict, suppress_permissive,
  set_suppress_icv_mode,
}
use c3_simulator.Integrity.Instructions.{copy_icvs}

abbrev pub ds_prefix : ℕ
ds_prefix = 0x3e

abbrev pub es_prefix : ℕ
es_prefix = 0x26

pub record DecodedInst : Type 0 where
  pub is_rep_movsb : Bool
  pub byte_0 : ℕ
  pub length : ℕ

-- The registers of a copy: its destination, its source, its number of bytes and its direction.
pub record CopyVals : Type 0 where
  pub dst : ℕ
  pub src : ℕ
  pub n : ℕ
  pub df_flag : Bool

-- The class, with the registers and the integrity checks.
pub record TripwireState : Type 0 where
  pub machine : Machine
  pub rdi : ℕ
  pub rsi : ℕ
  pub rcx : ℕ
  pub eflags : ℕ
  pub is_64_bit_mode : Bool
  pub fixup_dst_icvs : Bool
  pub fixup_dst_icvs_vals : CopyVals

unfoldable pub does_rep_movsb : DecodedInst → ℕ → Bool
does_rep_movsb xedd prefix = xedd.is_rep_movsb && xedd.byte_0 == prefix

-- The mode of the emulation that is registered, and the length of the instruction; for `none`, the
-- instruction is left to others.
unfoldable pub instruction_decode :
    (List ℕ → Option DecodedInst) → List ℕ → TripwireState → Option (SuppressMode × ℕ)
instruction_decode xed_decode bytes s = if not s.is_64_bit_mode then none else (do
  xedd ← xed_decode bytes
  (if does_rep_movsb xedd ds_prefix
      then some (suppress_strict, xedd.length)
      else if does_rep_movsb xedd es_prefix
      then some (suppress_permissive, xedd.length)
      else none))

unfoldable pub current_vals : TripwireState → CopyVals
current_vals s = record {
  dst = s.rdi;
  src = s.rsi;
  n = s.rcx;
  df_flag = not (s.eflags / 2 ^ 10 % 2 == 0);
}

unfoldable pub emul_prefix_rep_movs : SuppressMode → TripwireState → TripwireState
emul_prefix_rep_movs mode s =
    if s.machine.icv_enabled
    then record s {
      machine = set_suppress_icv_mode mode s.machine;
      fixup_dst_icvs = true;
      fixup_dst_icvs_vals = current_vals s;
    }
    else s

-- An instruction before the processor carries it out.
unfoldable pub emulation_before : Option (SuppressMode × ℕ) → TripwireState → TripwireState
emulation_before none s = s
emulation_before (some (mode, length)) s = emul_prefix_rep_movs mode s

-- The values of the copy were kept, since it has changed the registers.
unfoldable pub instruction_after_cb : Simulator → TripwireState → Option TripwireState
instruction_after_cb sim s =
    if s.fixup_dst_icvs
    then (do
      let v = s.fixup_dst_icvs_vals
      m ← copy_icvs sim v.dst v.src v.n v.df_flag s.machine
      some (record s { machine = set_suppress_icv_mode suppress_none m; fixup_dst_icvs = false }))
    else some s
