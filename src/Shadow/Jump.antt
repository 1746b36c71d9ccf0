-- ===== src/Shadow/Jump.antt =====
-- Jumps to an address in a register: modules/common/ccsimics/shadow_rip.h.
use c3_simulator.Common.{
  ℕ, ◌≡◌, refl, ap, ap₂, ◌||◌, sym, ◌∙◌, Bool, true, false, not, ◌==◌, none, some, if_true,
  if_false, bind_some, if◌then◌else◌, ==→eq, ==_eq, Bool-cases, inl, inr,
}
use c3_simulator.Bipbip.Cipher.{PointerCipher}
use c3_simulator.Bipbip.Schedule.{KeySchedule}
use c3_simulator.Bipbip.Caching.{IsCoherent}
use c3_simulator.Ca.Format.{is_encoded_cc_ptr}
use c3_simulator.Ca.Decoding.{decoded}
use c3_simulator.Integrity.Machine.{Simulator, Options}
use c3_simulator.Shadow.State.{RipState, set_reg, set_shadow_rip, decode_in}
use c3_simulator.Shadow.Replace.{
  normalize_gsrip, restore_reg, restore_cp, fix_ra, instruction_after_cb,
}
use c3_simulator.Shadow.Branch.{
  XedInst, decode_ptr_and_update_gsrip, branch_to_reg, branch_to, update_reg_branch_target,
  emul_call_or_jmp,
}
use c3_simulator.Shadow.Slot.{decode_in_lem}

-- Where a branch target points to, and the shadow RIP it stands for.
unfoldable pub target_la : KeySchedule → ℕ → ℕ
target_la ks t = if is_encoded_cc_ptr t then decoded ks t else t

unfoldable pub target_gsrip : ℕ → ℕ
target_gsrip t = if is_encoded_cc_ptr t then normalize_gsrip t else 0

abbrev pub decoded_state : RipState → PointerCipher → RipState
decoded_state s c = record s { core = record s.core { pointer_encoder = c } }

decode_if :
    (b : Bool) (s : RipState) (t : ℕ)
    → IsCoherent s.core.pointer_encoder
    → s.core.cc_enabled ≡ true
    → (c : PointerCipher) × ((if b then decode_in s t else some (t, s))
        ≡ some
            ((if b then decoded s.core.pointer_encoder.key_schedule t else t), decoded_state s c))
decode_if true s t h on = let (c, e, _, _) = decode_in_lem s t h on in (c, e)
decode_if false s t h on = (s.core.pointer_encoder, refl)

pub decode_target_lem :
    (s : RipState) (t : ℕ)
    → IsCoherent s.core.pointer_encoder
    → s.core.cc_enabled ≡ true
    → (c : PointerCipher) × (decode_ptr_and_update_gsrip t s
        ≡ some (
          target_la s.core.pointer_encoder.key_schedule t,
          decoded_state (set_shadow_rip (target_gsrip t) s) c,
        ))
unfolding decode_ptr_and_update_gsrip target_la target_gsrip set_shadow_rip
decode_target_lem s t h on =
    decode_if (is_encoded_cc_ptr t) (set_shadow_rip (target_gsrip t) s) t h on

set_reg_back : (gpr : ℕ → ℕ) (reg v r : ℕ) → set_reg (set_reg gpr reg v) reg (gpr reg) r ≡ gpr r
set_reg_back gpr reg v r = elim (Bool-cases (r == reg)) [
  | inl e ↦ if_true _ e ∙ ap gpr (sym (==→eq r reg e))
  | inr e ↦ if_false _ e ∙ if_false _ e
]

module _ (sim : Simulator) (o : Options) (rsp_id : ℕ) where
  after_lem :
      (s : RipState)
      → s.need_ra_fixup ≡ false
      → s.need_cp_fixup ≡ false
      → instruction_after_cb sim o rsp_id s ≡ some (restore_reg s.reg_fixup s)
  unfolding instruction_after_cb fix_ra restore_cp
  after_lem s no_ra no_cp =
      bind_some _ (if_false _ no_ra) ∙ ap (λ u. some (restore_reg u.reg_fixup u)) (if_false _ no_cp)

  -- What a jump to `la` through `reg` and the callback after it do.
  record Restoring (s : RipState) (reg la g : ℕ) (s1 : RipState) : Type 0 where
    pub target : s1.gpr reg ≡ la
    pub new_gsrip : s1.gsrip ≡ g
    pub after :
        (rip_after : ℕ)
        → (s2 : RipState) × (instruction_after_cb sim o rsp_id (record s1 { rip = rip_after })
            ≡ some s2)
          × (s2.gsrip ≡ g)
          × ((r : ℕ) → s2.gpr r ≡ s.gpr r)

  module _ (s : RipState) (reg : ℕ) (no_ra : s.need_ra_fixup ≡ false)
      (no_cp : s.need_cp_fixup ≡ false) (no_reg : s.reg_fixup ≡ none) (c : PointerCipher)
      (la g : ℕ) where
    abbrev jumped : RipState
    jumped = decoded_state (set_shadow_rip g s) c

    plain : la ≡ s.gpr reg → Restoring s reg la g jumped
    unfolding set_shadow_rip restore_reg
    plain same = record {
      target = sym same;
      new_gsrip = refl;
      after = λ rip_after. (
        record jumped { rip = rip_after },
        after_lem (record jumped { rip = rip_after }) no_ra no_cp
            ∙ ap (λ f. some (restore_reg f (record jumped { rip = rip_after }))) no_reg,
        refl,
        λ r. refl,
      );
    }

    abbrev replaced_reg : RipState
    replaced_reg = record jumped {
      reg_fixup = some reg;
      reg_fixup_val = s.gpr reg;
      gpr = set_reg jumped.gpr reg la;
    }

    moved : Restoring s reg la g replaced_reg
    unfolding set_shadow_rip restore_reg
    moved = record {
      target = if_true _ (==_eq reg reg refl);
      new_gsrip = refl;
      after = λ rip_after. (
        restore_reg (some reg) (record replaced_reg { rip = rip_after }),
        after_lem (record replaced_reg { rip = rip_after }) no_ra no_cp,
        refl,
        set_reg_back s.gpr reg la,
      );
    }

  branch_to_reg_lem :
      (s : RipState) (reg : ℕ)
      → IsCoherent s.core.pointer_encoder
      → s.core.cc_enabled ≡ true
      → s.need_ra_fixup ≡ false
      → s.need_cp_fixup ≡ false
      → s.reg_fixup ≡ none
      → (s1 : RipState) × (branch_to_reg reg s ≡ some s1)
        × Restoring s reg
            (target_la s.core.pointer_encoder.key_schedule (s.gpr reg))
            (target_gsrip (s.gpr reg))
            s1
  unfolding branch_to_reg set_shadow_rip
  branch_to_reg_lem s reg h on no_ra no_cp no_reg =
      let (c, e) = decode_target_lem s (s.gpr reg) h on in
      let la = target_la s.core.pointer_encoder.key_schedule (s.gpr reg) in
      let g = target_gsrip (s.gpr reg) in
      elim (Bool-cases (la == s.gpr reg)) [
        | inl same ↦ (
          jumped s reg no_ra no_cp no_reg c la g,
          bind_some _ e ∙ ap some (if_true _ same),
          plain s reg no_ra no_cp no_reg c la g (==→eq la (s.gpr reg) same),
        )
        | inr differs ↦ (
          replaced_reg s reg no_ra no_cp no_reg c la g,
          bind_some _ e ∙ ap some (if_false _ differs),
          moved s reg no_ra no_cp no_reg c la g,
        )
      ]

-- The operand of the jump is a register, and no fixup is left from the instruction before.
pub record JumpsTo (s : RipState) (x : XedInst) (reg : ℕ) : Type 0 where
  pub coherent : IsCoherent s.core.pointer_encoder
  pub cc_on : s.core.cc_enabled ≡ true
  pub on : s.gsrip_enabled ≡ true
  pub in_register : x.is_mem_load_call_or_jmp ≡ false
  pub operand : x.reg0 ≡ some reg
  pub not_stackpush : x.reg0_is_stackpush ≡ false
  pub not_rip : x.reg0_is_rip ≡ false
  pub no_ra : s.need_ra_fixup ≡ false
  pub no_cp : s.need_cp_fixup ≡ false
  pub no_reg : s.reg_fixup ≡ none

-- With the shadow RIP and a coherent encoder enabled, and no fixup due, the emulation of a jump
-- whose operand is a register (no memory, stack push or RIP) succeeds, puts the decoded target in
-- the register, if it is a CA, and sets the shadow RIP to the fixed bits of the CA, or to 0 if it
-- is none; the callback after the jump succeeds, keeps the shadow RIP, and gives every register the
-- value it had before.
pub instruction_after_cb-emul_call_or_jmp :
    (sim : Simulator) (o : Options) (break_on_decode_fault : Bool) (rsp_id : ℕ) (s : RipState)
    (x : XedInst) (reg : ℕ)
    → JumpsTo s x reg
    → (s1 : RipState) × (emul_call_or_jmp sim o break_on_decode_fault x false s ≡ some s1)
      × (s1.gpr reg ≡ target_la s.core.pointer_encoder.key_schedule (s.gpr reg))
      × (s1.gsrip ≡ target_gsrip (s.gpr reg))
      × ((rip_after : ℕ)
          → (s2 : RipState) × (instruction_after_cb sim o rsp_id (record s1 { rip = rip_after })
              ≡ some s2)
            × (s2.gsrip ≡ target_gsrip (s.gpr reg))
            × ((r : ℕ) → s2.gpr r ≡ s.gpr r))
unfolding emul_call_or_jmp update_reg_branch_target branch_to
instruction_after_cb-emul_call_or_jmp sim o break_on_decode_fault rsp_id s x reg j =
    let (s1, e, r) =
      branch_to_reg_lem sim o rsp_id s reg j.coherent j.cc_on j.no_ra j.no_cp j.no_reg in
    (
      s1,
      if_false _ (ap not j.on)
          ∙ if_false _ j.in_register
          ∙ if_false _ (ap₂ (λ a b. a || b) j.not_stackpush j.not_rip)
          ∙ ap (λ t. branch_to t s) j.operand
          ∙ e,
      r.target,
      r.new_gsrip,
      r.after,
    )
