-- ===== src/Shadow/Tests.antt =====
-- The theorems on the shadow RIP at a concrete state: modules/common/ccsimics/shadow_rip.h.
use c3_simulator.Common.{
  ℕ, ◌+◌, ◌%◌, ◌^◌, ◌≡◌, refl, arith, true, false, ◌==◌, if◌then◌else◌, if_true, ==_refl, none,
  some, List, [], ◌∷◌,
}
use c3_simulator.Bipbip.Caching.{keyed-IsCoherent}
use c3_simulator.Ca.Format.{is_encoded_cc_ptr}
use c3_simulator.Integrity.Check.{read_mem_8B, read_phys_at}
use c3_simulator.Integrity.Machine.{Event, gp_fault, break_simulation, write_phys_memory, Simulator}
use c3_simulator.Integrity.Samples.{integrity_options, metadata, test_la, test_ca, machine, cipher}
use c3_simulator.Shadow.State.{RipState, read_8, read_ra_at_rsp}
use c3_simulator.Shadow.Replace.{
  smm_enter_before_cb, smm_leave_after_cb, instruction_after_cb, emul_ret,
}
use c3_simulator.Shadow.Branch.{XedInst, emul_call_or_jmp}
use c3_simulator.Shadow.Smm.{InSlot, smm_leave_after_cb-smm_enter_before_cb}
use c3_simulator.Shadow.Jump.{
  target_la, target_gsrip, JumpsTo, instruction_after_cb-emul_call_or_jmp,
}
use c3_simulator.Shadow.Stack.{ReadsBack}
use c3_simulator.Shadow.Calls.{AfterCall, emul_ret-instruction_after_cb}

-- Memory that holds the return address until it is written.
abbrev word_at : List Event → ℕ → ℕ
word_at [] pa = test_la + 20
word_at (gp_fault m ∷ calls) pa = word_at calls pa
word_at (break_simulation m ∷ calls) pa = word_at calls pa
word_at (write_phys_memory at v ∷ calls) pa = if at == pa then v else word_at calls pa

abbrev memory_sim : Simulator
memory_sim = record { logical_to_physical = λ la. some (la % 2 ^ 40); read_phys_memory = word_at }

memory_sim-ReadsBack : ReadsBack memory_sim
unfolding ReadsBack
memory_sim-ReadsBack calls pa v small = if_true (word_at calls pa) (==_refl pa)

-- In the slot of a CA, with a stack pointer that is no CA and a CA in register 1.
abbrev rip_state : RipState
rip_state = record {
  core = machine none;
  gpr = λ r. if r == 4 then 0x7ffe00000000 else test_ca;
  rip = test_la + 20;
  gsrip = test_ca;
  gsrip_enabled = true;
  is_rip_rel = false;
  need_ra_fixup = false;
  need_cp_fixup = false;
  reg_fixup = none;
  reg_fixup_val = 0;
  old_gsrip = test_ca;
  original_cp_value = 0;
  original_cp_addr = 0;
  rip_rel_val = 0;
  xed_agen_rip_replace = false;
  mem_call_integrity_hack = false;
}

in_slot : InSlot rip_state test_la 20 metadata
in_slot = record {
  coherent = keyed-IsCoherent [];
  cc_on = refl;
  on = refl;
  size_low = omega arith;
  size_high = omega arith;
  start = refl;
  inside = omega arith;
  user = omega arith;
  gsrip_is = refl;
  rip_is = refl;
}

smm_leave_after_cb-smm_enter_before_cb_example :
    (s1 : RipState) × (smm_enter_before_cb rip_state ≡ some s1)
    × (s1.gsrip ≡ 0)
    × (s2 : RipState) × (smm_leave_after_cb s1 ≡ some s2)
    × (s2.rip ≡ rip_state.rip)
    × (s2.gsrip ≡ rip_state.gsrip)
smm_leave_after_cb-smm_enter_before_cb_example =
    smm_leave_after_cb-smm_enter_before_cb rip_state test_la 20 metadata in_slot

abbrev jump_inst : XedInst
jump_inst = record {
  agen = λ rip gpr. none;
  agen_reads_rip = false;
  is_mem_load_call_or_jmp = false;
  reg0 = some 1;
  reg0_is_stackpush = false;
  reg0_is_rip = false;
}

jumps_to : JumpsTo rip_state jump_inst 1
jumps_to = record {
  coherent = keyed-IsCoherent [];
  cc_on = refl;
  on = refl;
  in_register = refl;
  operand = refl;
  not_stackpush = refl;
  not_rip = refl;
  no_ra = refl;
  no_cp = refl;
  no_reg = refl;
}

instruction_after_cb-emul_call_or_jmp_example :
    (s1 : RipState) × (emul_call_or_jmp memory_sim integrity_options false jump_inst false rip_state
      ≡ some s1)
    × (s1.gpr 1 ≡ target_la cipher.key_schedule test_ca)
    × (s1.gsrip ≡ target_gsrip test_ca)
    × ((rip_after : ℕ)
        → (s2 : RipState) × (instruction_after_cb memory_sim integrity_options 4
              (record s1 { rip = rip_after })
            ≡ some s2)
          × (s2.gsrip ≡ target_gsrip test_ca)
          × ((r : ℕ) → s2.gpr r ≡ rip_state.gpr r))
instruction_after_cb-emul_call_or_jmp_example =
    instruction_after_cb-emul_call_or_jmp memory_sim integrity_options false 4 rip_state jump_inst 1
      jumps_to

abbrev call_state : RipState
call_state = record rip_state { gsrip = 0; need_ra_fixup = true }

after_call :
    AfterCall memory_sim integrity_options 4 call_state test_la 20
      (0x7ffe00000000 % 2 ^ 40)
      metadata
unfolding read_ra_at_rsp is_encoded_cc_ptr read_8 read_mem_8B read_phys_at
after_call = record {
  coherent = keyed-IsCoherent [];
  cc_on = refl;
  on = refl;
  size_low = omega arith;
  size_high = omega arith;
  start = refl;
  inside = omega arith;
  user = omega arith;
  old_gsrip_is = refl;
  pushed = refl;
  translates = refl;
  is_call = refl;
  no_cp = refl;
  no_reg = refl;
}

emul_ret-instruction_after_cb_example :
    (s1 : RipState) × (instruction_after_cb memory_sim integrity_options 4 call_state ≡ some s1)
    × (s2 : RipState) × (emul_ret memory_sim integrity_options 4 s1 ≡ some s2)
    × (s2.gsrip ≡ call_state.old_gsrip)
    × ((read_ra_at_rsp memory_sim integrity_options (call_state.gpr 4) s2).0
        ≡ (read_ra_at_rsp memory_sim integrity_options (call_state.gpr 4) call_state).0)
emul_ret-instruction_after_cb_example =
    emul_ret-instruction_after_cb memory_sim integrity_options 4 call_state test_la 20
      (0x7ffe00000000 % 2 ^ 40) metadata memory_sim-ReadsBack after_call
