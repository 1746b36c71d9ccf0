-- ===== src/Shadow/Replace.antt =====
-- The replacement of an address's fixed bits by the shadow RIP, and the callbacks around instructions,
-- exceptions and SMM: modules/common/ccsimics/shadow_rip.h.
use c3_simulator.Common.{
  ℕ, true, false, ◌&&◌, not, ◌==◌, if◌then◌else◌, Option, none, some, ◌>>=◌, assert◌then◌, bit_and,
  bit_or, bit_xor,
}
use c3_simulator.Ca.Format.{ca_get_size, get_tweak_mask, is_encoded_cc_ptr}
use c3_simulator.Base.Words.{encrypt_decrypt_u64}
use c3_simulator.Integrity.Machine.{Simulator, Options, gp_fault, gsrip_escape, record_call}
use c3_simulator.Shadow.State.{
  RipState, set_reg, set_shadow_rip, decode_in, decode_if_encoded_in, read_8, write_8,
  read_ra_at_rsp, write_ra_at_rsp,
}

-- The bits that no offset inside the CA's slot changes.
unfoldable pub normalize_gsrip : ℕ → ℕ
normalize_gsrip ca = bit_and ca (get_tweak_mask (ca_get_size ca))

-- The fault on an address outside the slot of the shadow RIP.
unfoldable pub escaped : RipState → RipState
escaped s = record s { gsrip_enabled = false; core = record_call s.core (gp_fault gsrip_escape) }

-- `replace_shadow_rip` with two arguments, by the decoded shadow RIP
unfoldable pub replaced : ℕ → ℕ → ℕ → RipState → ℕ × RipState
replaced la gsrip la_gsrip s =
    let mask = get_tweak_mask (ca_get_size gsrip) in
    let fixed_la = bit_and la mask in
    if not (bit_and la_gsrip mask == fixed_la)
    then (la, escaped s)
    else (bit_or (bit_and gsrip mask) (bit_xor la fixed_la), s)

unfoldable pub replace_shadow_rip_by : ℕ → ℕ → RipState → Option (ℕ × RipState)
replace_shadow_rip_by la gsrip s = do
  (la_gsrip, s') ← decode_in s gsrip
  some (replaced la gsrip la_gsrip s')

unfoldable pub replace_shadow_rip : ℕ → RipState → Option (ℕ × RipState)
replace_shadow_rip la s =
    if s.gsrip_enabled && not (s.gsrip == 0)
    then assert is_encoded_cc_ptr s.gsrip
    then replace_shadow_rip_by la s.gsrip s
    else some (la, s)

unfoldable pub address_before_shim : ℕ → RipState → Option (ℕ × RipState)
address_before_shim la s =
    if s.is_rip_rel && s.rip_rel_val == la then replace_shadow_rip la s else some (la, s)

unfoldable pub smm_enter_before_cb : RipState → Option RipState
smm_enter_before_cb s = do
  (rip_new, s') ← replace_shadow_rip s.rip s
  some (set_shadow_rip 0 (record s' { rip = rip_new }))

unfoldable pub smm_leave_after_cb : RipState → Option RipState
smm_leave_after_cb s = do
  let gsrip_new = if is_encoded_cc_ptr s.rip then normalize_gsrip s.rip else 0
  (rip_new, s') ← decode_if_encoded_in s s.rip
  some (set_shadow_rip gsrip_new (record s' { rip = rip_new }))

-- The register that a branch through a CA has replaced gets its value back.
unfoldable pub restore_reg : Option ℕ → RipState → RipState
restore_reg none s = s
restore_reg (some reg) s = record s { gpr = set_reg s.gpr reg s.reg_fixup_val; reg_fixup = none }

module _ (sim : Simulator) (o : Options) (rsp_id : ℕ) where
  -- The memory that a branch through a CA has replaced gets its value back.
  unfoldable pub restore_cp : RipState → RipState
  restore_cp s =
      if s.need_cp_fixup
      then (let s1 = write_8 sim s.original_cp_addr s.original_cp_value s in
          record s1 {
            core = record s1.core {
              icv_enabled = if s.mem_call_integrity_hack then true else s1.core.icv_enabled;
            };
          })
      else s

  -- The return address on the stack gets the fixed bits of the shadow RIP before the call.
  unfoldable pub fix_ra : RipState → Option RipState
  fix_ra s =
      if s.need_ra_fixup
      then (do
        let (ra, s1) = read_ra_at_rsp sim o (s.gpr rsp_id) s
        (new_ra, s2) ← replace_shadow_rip_by ra s.old_gsrip s1
        some (write_ra_at_rsp sim o (s.gpr rsp_id) new_ra s2))
      else some s

  unfoldable pub instruction_after_cb : RipState → Option RipState
  instruction_after_cb s = do
    s1 ← fix_ra s
    let s2 = restore_cp s1
    some (restore_reg s2.reg_fixup s2)

  -- A word of the stack, encrypted where the stack pointer is a CA.
  unfoldable pub stack_word : ℕ → ℕ → ℕ → ℕ
  stack_word rsp_reg rsp_decoded v =
      if not (rsp_reg == rsp_decoded) && not o.disable_data_encryption
      then encrypt_decrypt_u64 rsp_reg v o.dp_key
      else v

  unfoldable pub exception_after_cb : RipState → Option RipState
  exception_after_cb s = do
    let rsp_reg = s.gpr rsp_id
    (rsp_decoded, s1) ← decode_if_encoded_in s rsp_reg
    let (ra_old, s2) = read_8 sim rsp_decoded s1
    (ra_new, s3) ← replace_shadow_rip (stack_word rsp_reg rsp_decoded ra_old) s2
    some (set_shadow_rip 0 (write_8 sim rsp_decoded (stack_word rsp_reg rsp_decoded ra_new) s3))

  -- What `emul_ret` does with the return address.
  unfoldable pub return_to : ℕ → RipState → Option RipState
  return_to ra s =
      if is_encoded_cc_ptr ra
      then (do
        (decoded_ra, s1) ← decode_in s ra
        some (
            set_shadow_rip (normalize_gsrip ra)
              (write_ra_at_rsp sim o (s.gpr rsp_id) decoded_ra s1)))
      else some (set_shadow_rip 0 s)

  unfoldable pub emul_ret : RipState → Option RipState
  emul_ret s =
      if not s.gsrip_enabled
      then some s
      else (let (ra, s1) = read_ra_at_rsp sim o (s.gpr rsp_id) s in return_to ra s1)
