-- ===== src/Shadow/State.antt =====
-- What the shadow RIP reads and changes: the members of `ShadowRip`, the context's shadow RIP and the
-- registers, in modules/common/ccsimics/shadow_rip.h. `none` is a failed assertion.
use c3_simulator.Common.{ℕ, Bool, false, ◌==◌, if◌then◌else◌, Option, none, some, ◌>>=◌}
use c3_simulator.Ca.Format.{is_encoded_cc_ptr}
use c3_simulator.Base.Words.{encrypt_decrypt_u64}
use c3_simulator.Integrity.Machine.{Simulator, Options, Machine, decode_la}
use c3_simulator.Integrity.Check.{read_mem_8B}
use c3_simulator.Integrity.Instructions.{write_mem_8B}

-- `core` has the pointer encoder, the ICV flags and the calls of the simulator; `reg_fixup` is `none`
-- for X86_Reg_Id_Not_Used.
pub record RipState : Type 0 where
  pub core : Machine
  pub gpr : ℕ → ℕ
  pub rip : ℕ
  pub gsrip : ℕ
  pub gsrip_enabled : Bool
  pub is_rip_rel : Bool
  pub need_ra_fixup : Bool
  pub need_cp_fixup : Bool
  pub reg_fixup : Option ℕ
  pub reg_fixup_val : ℕ
  pub old_gsrip : ℕ
  pub original_cp_value : ℕ
  pub original_cp_addr : ℕ
  pub rip_rel_val : ℕ
  pub xed_agen_rip_replace : Bool
  pub mem_call_integrity_hack : Bool

abbrev pub set_reg : (ℕ → ℕ) → ℕ → ℕ → ℕ → ℕ
set_reg gpr reg value r = if r == reg then value else gpr r

unfoldable pub reset_internal_state : RipState → RipState
reset_internal_state s = record s {
  need_cp_fixup = false;
  need_ra_fixup = false;
  is_rip_rel = false;
  reg_fixup = none;
}

unfoldable pub set_shadow_rip : ℕ → RipState → RipState
set_shadow_rip new_gsrip s = record s { gsrip = new_gsrip }

-- `cc_->decode_pointer`
unfoldable pub decode_in : RipState → ℕ → Option (ℕ × RipState)
decode_in s ptr = do (la, m) ← decode_la s.core ptr; some (la, record s { core = m })

unfoldable pub decode_if_encoded_in : RipState → ℕ → Option (ℕ × RipState)
decode_if_encoded_in s ptr = if is_encoded_cc_ptr ptr then decode_in s ptr else some (ptr, s)

module _ (sim : Simulator) where
  unfoldable pub read_8 : ℕ → RipState → ℕ × RipState
  read_8 la s = let (v, m) = read_mem_8B sim la s.core in (v, record s { core = m })

  unfoldable pub write_8 : ℕ → ℕ → RipState → RipState
  write_8 la value s = record s { core = write_mem_8B sim la value s.core }

  unfoldable pub read_ra_at_rsp : Options → ℕ → RipState → ℕ × RipState
  read_ra_at_rsp o rsp s =
      let (v, s') = read_8 rsp s in
      (if is_encoded_cc_ptr rsp then encrypt_decrypt_u64 rsp v o.dp_key else v, s')

  unfoldable pub write_ra_at_rsp : Options → ℕ → ℕ → RipState → RipState
  write_ra_at_rsp o rsp new_ra s =
      write_8 rsp
        (if is_encoded_cc_ptr rsp then encrypt_decrypt_u64 rsp new_ra o.dp_key else new_ra) s
