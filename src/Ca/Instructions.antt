-- ===== src/Ca/Instructions.antt =====
-- How modules/common/ccsimics/ptrencdec_isa.h decodes and disassembles the bytes of an instruction.
-- The decoder library is the argument `registers`, which gives the two register operands of the four
-- bytes, or `none` where `xed_decode_register` fails its assertion.
use c3_simulator.Common.{
  ℕ, ◌≡◌, refl, Bool, true, false, ltb, leb, ◌==◌, not, if◌then◌else◌, List, length, get_or, Option,
  none, some, ◌>>=◌, Bool-cases, inl, inr,
}

-- The return value of `decode`, with the emulation that it registers: `missing n` is `-n`,
-- `not_ours` is 0, and the two emulations return 4.
pub data Decoded : Type 0 where
  missing : ℕ → Decoded
  not_ours : Decoded
  ccptrenc : ℕ → ℕ → Decoded
  ccptrdec : ℕ → Decoded

-- The return value of `disassemble`: a length and a name.
pub data Text : Type 0 where
  missing_bytes : ℕ → Text
  no_text : Text
  ccptrenc_text : Text
  ccptrdec_text : Text

module _ (registers : List ℕ → Option (ℕ × ℕ)) where
  -- Different registers encode the first, one register twice decodes it.
  unfoldable pub emulation_of : ℕ × ℕ → Decoded
  emulation_of regs = if regs.0 == regs.1 then ccptrdec regs.0 else ccptrenc regs.0 regs.1

  unfoldable pub decode : List ℕ → Option Decoded
  unfolding emulation_of
  decode bytes =
      if length bytes == 0
      then some (missing 1)
      else if not (get_or bytes 0 0 == 0xF0)
      then some not_ours
      else if ltb (length bytes) 2
      then some (missing 2)
      else if ltb (length bytes) 3
      then some (missing 3)
      else if not (get_or bytes 2 0 == 0x01)
      then some not_ours
      else if ltb (length bytes) 4
      then some (missing 4)
      else if leb 0xc0 (get_or bytes 3 0)
      then (do regs ← registers bytes; some (emulation_of regs))
      else some not_ours

  unfoldable pub text_of : ℕ × ℕ → Text
  text_of regs = if regs.0 == regs.1 then ccptrdec_text else ccptrenc_text

  unfoldable pub disassemble : List ℕ → Option Text
  unfolding text_of
  disassemble bytes =
      if length bytes == 0
      then some (missing_bytes 1)
      else if not (get_or bytes 0 0 == 0xF0)
      then some no_text
      else if ltb (length bytes) 2
      then some (missing_bytes 2)
      else if ltb (length bytes) 3
      then some (missing_bytes 3)
      else if not (get_or bytes 2 0 == 0x01)
      then some no_text
      else if ltb (length bytes) 4
      then some (missing_bytes 4)
      else if leb 0xc0 (get_or bytes 3 0)
      then (do regs ← registers bytes; some (text_of regs))
      else some no_text

-- The text that belongs to what was decoded.
pub described : Decoded → Text
described (missing n) = missing_bytes n
described not_ours = no_text
described (ccptrenc ptr_reg size_reg) = ccptrenc_text
described (ccptrdec ptr_reg) = ccptrdec_text

pub described_if : Option Decoded → Option Text
unfolding described
described_if none = none
described_if (some d) = some (described d)

described_then :
    (b : Bool) (x y : Option Decoded) (x' y' : Option Text)
    → x' ≡ described_if x
    → y' ≡ described_if y
    → (if b then x' else y') ≡ described_if (if b then x else y)
described_then true x y x' y' e e' = e
described_then false x y x' y' e e' = e'

-- On the registers that were found, and on a failure to find them.
described_regs :
    (registers : List ℕ → Option (ℕ × ℕ)) (found : Option (ℕ × ℕ))
    → (found >>= λ regs. some (text_of registers regs))
      ≡ described_if (found >>= λ regs. some (emulation_of registers regs))
unfolding described_if described text_of emulation_of
described_regs registers none = refl
described_regs registers (some regs) = elim (Bool-cases (regs.0 == regs.1)) [
  | inl same ↦ rw same refl
  | inr other ↦ rw other refl
]

-- For all bytes, whatever the decoder library answers, the disassembly is the text of the decoded
-- instruction: the same number of missing bytes, and the name of the emulation that is registered.
pub disassemble_lem :
    (registers : List ℕ → Option (ℕ × ℕ)) (bytes : List ℕ)
    → disassemble registers bytes ≡ described_if (decode registers bytes)
unfolding disassemble decode described_if described
disassemble_lem registers bytes = described_then (length bytes == 0) _ _ _ _ refl (
    described_then (not (get_or bytes 0 0 == 0xF0)) _ _ _ _ refl (
      described_then (ltb (length bytes) 2) _ _ _ _ refl (
        described_then (ltb (length bytes) 3) _ _ _ _ refl (
          described_then (not (get_or bytes 2 0 == 0x01)) _ _ _ _ refl (
            described_then (ltb (length bytes) 4) _ _ _ _ refl (
              described_then (leb 0xc0 (get_or bytes 3 0)) _ _ _ _
                (described_regs registers (registers bytes)) refl))))))
