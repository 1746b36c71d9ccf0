-- ===== src/Castack/Tests.antt =====
-- The stack instructions at a concrete state: modules/common/ccsimics/castack.h.
use c3_simulator.Common.{ℕ, ◌≡◌, refl, if◌then◌else◌, some, List, [], ◌∷◌}
use c3_simulator.Bipbip.Caching.{keyed-IsCoherent}
use c3_simulator.Integrity.Samples.{test_ca, cipher}
use c3_simulator.Castack.Fixup.{
  StackState, fxsave, other, modrm_reg, decode_opcode, instruction_before_cb, instruction_after_cb,
}
use c3_simulator.Castack.Restore.{
  plain, is_fx, is_long_jmp_rdx, instruction_after_cb-instruction_before_cb,
}

abbrev fxsave_bytes : List ℕ
fxsave_bytes = 0x0F ∷ 0xAE ∷ 0x04 ∷ 0x24 ∷ []

-- FXSAVE [RSP], and JMP RDX, of which the decoder wants a third byte.
fxsave_decoded : decode_opcode fxsave_bytes ≡ fxsave
unfolding decode_opcode modrm_reg
fxsave_decoded = refl

jmprdx_decoded : decode_opcode (0xFF ∷ 0xE2 ∷ []) ≡ other
unfolding decode_opcode modrm_reg
jmprdx_decoded = refl

abbrev stack_state : StackState
stack_state = record {
  ptrenc = cipher;
  rsp = test_ca;
  rdx = 7;
  saved_reg = 0;
  current_instruction = other;
}

instruction_after_cb-instruction_before_cb_example :
    (s1 : StackState) × (instruction_before_cb fxsave_bytes stack_state ≡ some s1)
    × (s1.rsp ≡ (if is_fx fxsave_bytes then plain cipher.key_schedule test_ca else test_ca))
    × (s1.rdx ≡ (if is_long_jmp_rdx fxsave_bytes then plain cipher.key_schedule 7 else 7))
    × ((instruction_after_cb s1).rsp ≡ test_ca)
    × ((instruction_after_cb s1).rdx ≡ 7)
instruction_after_cb-instruction_before_cb_example =
    instruction_after_cb-instruction_before_cb fxsave_bytes stack_state (keyed-IsCoherent [])
