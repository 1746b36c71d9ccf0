-- ===== src/Shadow/Branch.antt =====
-- Calls, jumps, LEA and memory accesses relative to RIP: modules/common/ccsimics/shadow_rip.h.
use c3_simulator.Common.{
  ℕ, Bool, true, false, ◌&&◌, ◌||◌, not, ◌==◌, if◌then◌else◌, Option, none, some, ◌>>=◌,
}
use c3_simulator.Ca.Format.{is_encoded_cc_ptr}
use c3_simulator.Base.Words.{encrypt_decrypt_u64}
use c3_simulator.Integrity.Machine.{
  Simulator, Options, gp_fault, break_simulation, xed_agen_failed, record_call, record_call_if,
}
use c3_simulator.Shadow.State.{
  RipState, set_reg, set_shadow_rip, decode_in, decode_if_encoded_in, read_8, write_8,
}
use c3_simulator.Shadow.Replace.{normalize_gsrip, replace_shadow_rip}

-- What XED says of an instruction: the effective address from RIP and the general registers, if it
-- succeeds, whether it reads RIP for that, and the operands that the callbacks look at.
pub record XedInst : Type 0 where
  pub agen : ℕ → (ℕ → ℕ) → Option ℕ
  pub agen_reads_rip : Bool
  pub is_mem_load_call_or_jmp : Bool
  pub reg0 : Option ℕ
  pub reg0_is_stackpush : Bool
  pub reg0_is_rip : Bool

unfoldable pub lea_to : Option ℕ → Option ℕ × RipState → RipState
lea_to dst (none, s) = s
lea_to none (some address, s) = s
lea_to (some reg) (some address, s) = record s { gpr = set_reg s.gpr reg address }

-- Without an address, `break_or_die` does not come back.
unfoldable pub mark_rip_rel : Option ℕ × RipState → Option RipState
mark_rip_rel (none, s) = none
mark_rip_rel (some val, s) = do
  (la, s') ← decode_if_encoded_in s val
  some (record s' { is_rip_rel = true; rip_rel_val = la })

unfoldable pub decode_ptr_and_update_gsrip : ℕ → RipState → Option (ℕ × RipState)
decode_ptr_and_update_gsrip call_target s =
    let is_ca = is_encoded_cc_ptr call_target in
    let s1 = set_shadow_rip (if is_ca then normalize_gsrip call_target else 0) s in
    if is_ca then decode_in s1 call_target else some (call_target, s1)

-- The branch target in a register is decoded, and the register remembered.
unfoldable pub branch_to_reg : ℕ → RipState → Option RipState
branch_to_reg reg s = do
  let call_target = s.gpr reg
  (decoded, s1) ← decode_ptr_and_update_gsrip call_target s
  some (
      if decoded == call_target then s1 else record s1 {
        reg_fixup = some reg;
        reg_fixup_val = call_target;
        gpr = set_reg s1.gpr reg decoded;
      })

-- Without a register for the operand, the source goes on with a number that is none.
unfoldable pub branch_to : Option ℕ → RipState → Option RipState
branch_to none s = none
branch_to (some reg) s = branch_to_reg reg s

unfoldable pub update_reg_branch_target : XedInst → Bool → RipState → Option RipState
update_reg_branch_target x is_call s =
    if x.reg0_is_stackpush || (not is_call && x.reg0_is_rip) then some s else branch_to x.reg0 s

module _ (sim : Simulator) (o : Options) (break_on_decode_fault : Bool) where
  -- The address, or a fault if XED finds none.
  unfoldable pub agen_result : Option ℕ → RipState → Option ℕ × RipState
  agen_result (some address) s = (some address, s)
  agen_result none s = (
    none,
    record s {
      core =
          record_call
            (record_call_if break_on_decode_fault (break_simulation xed_agen_failed) s.core)
            (gp_fault xed_agen_failed);
    },
  )

  -- RIP is read through `replace_shadow_rip`.
  unfoldable pub xed_agen_or_fault : XedInst → RipState → Option (Option ℕ × RipState)
  xed_agen_or_fault x s =
      let s0 : RipState = record s { xed_agen_rip_replace = false } in
      if x.agen_reads_rip
      then (do
        (rip, s1) ← replace_shadow_rip s.rip (record s0 { xed_agen_rip_replace = true })
        some (agen_result (x.agen rip s.gpr) s1))
      else some (agen_result (x.agen s.rip s.gpr) s0)

  unfoldable pub emul_lea : XedInst → RipState → Option RipState
  emul_lea x s =
      if not s.gsrip_enabled then some s else (do r ← xed_agen_or_fault x s; some (lea_to x.reg0 r))

  unfoldable pub emul_mem_access : XedInst → RipState → Option RipState
  emul_mem_access x s =
      if not s.gsrip_enabled then some s else (do r ← xed_agen_or_fault x s; mark_rip_rel r)

  -- What stands in memory for the branch target while the instruction runs.
  unfoldable pub replaced_target : Bool → Bool → ℕ → ℕ → ℕ
  replaced_target ptr_address_is_ca rip_replace ptr_address cp_decoded =
      if ptr_address_is_ca && not rip_replace
      then if o.disable_data_encryption
        then 0
        else encrypt_decrypt_u64 ptr_address cp_decoded o.dp_key
      else cp_decoded

  -- The target in memory is replaced by the decoded one; on an access relative to RIP the integrity
  -- checks are off until the instruction has run.
  unfoldable pub replace_target : ℕ → ℕ → ℕ → ℕ → RipState → RipState
  replace_target ptr_address ptr_address_la cp_encrypted cp_decoded s =
      let is_ca = is_encoded_cc_ptr ptr_address in
      let off = s.xed_agen_rip_replace in
      let s1 : RipState = record s {
        need_cp_fixup = true;
        original_cp_value = cp_encrypted;
        original_cp_addr = ptr_address_la;
        mem_call_integrity_hack = if off then s.core.icv_enabled else s.mem_call_integrity_hack;
        core = record s.core { icv_enabled = if off then false else s.core.icv_enabled };
      } in
      write_8 sim ptr_address_la (replaced_target is_ca off ptr_address cp_decoded) s1

  -- What `update_mem_branch_target` does with the address of the target.
  unfoldable pub branch_through : ℕ → RipState → Option RipState
  branch_through ptr_address s = do
    (ptr_address_la, s1) ← decode_if_encoded_in s ptr_address
    let (cp_encrypted, s2) = read_8 sim ptr_address_la s1
    let cp_decrypted =
        if is_encoded_cc_ptr ptr_address && not o.disable_data_encryption
        then encrypt_decrypt_u64 ptr_address cp_encrypted o.dp_key
        else cp_encrypted
    (cp_decoded, s3) ← decode_ptr_and_update_gsrip cp_decrypted s2
    some (
        if cp_decoded == cp_encrypted
        then s3
        else replace_target ptr_address ptr_address_la cp_encrypted cp_decoded s3)

  unfoldable pub branch_at : Option ℕ × RipState → Option RipState
  branch_at (none, s) = some s
  branch_at (some ptr_address, s) = branch_through ptr_address s

  unfoldable pub emul_call_or_jmp : XedInst → Bool → RipState → Option RipState
  emul_call_or_jmp x is_call s =
      let s1 : RipState =
        if is_call && not (s.gsrip == 0)
        then record s { old_gsrip = s.gsrip; need_ra_fixup = true }
        else s in
      if not s.gsrip_enabled
      then some s
      else if x.is_mem_load_call_or_jmp
      then (do r ← xed_agen_or_fault x s1; branch_at r)
      else update_reg_branch_target x is_call s1
