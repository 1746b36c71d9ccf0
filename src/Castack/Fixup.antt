-- ===== src/Castack/Fixup.antt =====
-- `CaStack` of modules/common/ccsimics/castack.h: the instructions whose operand is replaced by its
-- decoded address while they run. `none` is a failed assertion.
use c3_simulator.Common.{ℕ, ◌&&◌, ◌==◌, if◌then◌else◌, Option, some, ◌>>=◌, List, [], ◌∷◌, field}
use c3_simulator.Bipbip.Cipher.{PointerCipher}
use c3_simulator.Ca.Format.{is_encoded_cc_ptr}
use c3_simulator.Ca.Encoding.{decode_pointer}

pub data StackInst : Type 0 where
  fxsave fxrstor jmprdx other : StackInst

-- The members of `CaStack` and the two registers.
pub record StackState : Type 0 where
  pub ptrenc : PointerCipher
  pub rsp : ℕ
  pub rdx : ℕ
  pub saved_reg : ℕ
  pub current_instruction : StackInst

-- `modrm.reg_`
unfoldable pub modrm_reg : ℕ → ℕ
modrm_reg u = field 3 3 u

unfoldable pub decode_opcode : List ℕ → StackInst
decode_opcode (b0 ∷ b1 ∷ b2 ∷ bytes) =
    if b0 == 0x0F && b1 == 0xAE && modrm_reg b2 == 0
    then fxsave
    else if b0 == 0x0F && b1 == 0xAE && modrm_reg b2 == 1
    then fxrstor
    else if b0 == 0xFF && b1 == 0xE2
    then jmprdx
    else other
decode_opcode (b0 ∷ b1 ∷ []) = other
decode_opcode (b0 ∷ []) = other
decode_opcode [] = other

-- What the register gets, and the state with its old value saved.
unfoldable pub save_and_decode_if_encoded : ℕ → StackState → Option (ℕ × StackState)
save_and_decode_if_encoded reg_value s0 =
    let s : StackState = record s0 { saved_reg = reg_value } in
    if is_encoded_cc_ptr reg_value
    then (do (la, c) ← decode_pointer s.ptrenc reg_value; some (la, record s { ptrenc = c }))
    else some (reg_value, s)

-- The switch of the callback before the instruction.
unfoldable pub fix_operand : StackInst → StackState → Option StackState
fix_operand fxsave s = do
  (la, s') ← save_and_decode_if_encoded s.rsp s
  some (record s' { rsp = la })
fix_operand fxrstor s = do
  (la, s') ← save_and_decode_if_encoded s.rsp s
  some (record s' { rsp = la })
fix_operand jmprdx s = do
  (la, s') ← save_and_decode_if_encoded s.rdx s
  some (record s' { rdx = la })
fix_operand other s = some s

unfoldable pub instruction_before_cb : List ℕ → StackState → Option StackState
instruction_before_cb opcode s =
    let inst = decode_opcode opcode in fix_operand inst (record s { current_instruction = inst })

-- The switch of the callback after it.
unfoldable pub restore_operand : StackInst → StackState → StackState
restore_operand fxsave s = record s { rsp = s.saved_reg }
restore_operand fxrstor s = record s { rsp = s.saved_reg }
restore_operand jmprdx s = record s { rdx = s.saved_reg }
restore_operand other s = s

unfoldable pub instruction_after_cb : StackState → StackState
instruction_after_cb s = restore_operand s.current_instruction s
