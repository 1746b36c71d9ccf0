-- ===== src/Ca/Isa.antt =====
-- The instructions that encode and decode a pointer, as modules/common/ccsimics/ptrencdec_isa.h
-- emulates them, and `cc_isa_encptr_sv` of malloc/try_box.h, which runs the first of them.
-- The registers are a function from their numbers to their values; `none` is a failed assertion.
use c3_simulator.Common.{◌>>=◌, ℕ, Bool, ◌&&◌, ◌==◌, if◌then◌else◌, Option, none, some, field}
use c3_simulator.Bipbip.Cipher.{PointerCipher}
use c3_simulator.Ca.Format.{PtrMetadata, is_encoded_cc_ptr}
use c3_simulator.Ca.Boxing.{try_box}
use c3_simulator.Ca.Encoding.{encode_pointer, decode_pointer}

-- `m_enable_encoding_` and `m_enable_decoding_`
pub record IsaOptions : Type 0 where
  pub enable_encoding : Bool
  pub enable_decoding : Bool

-- The registers and the pointer encoder that an emulation callback changes.
pub record Cpu : Type 0 where
  pub gpr : ℕ → ℕ
  pub cipher : PointerCipher

abbrev pub set_gpr : (ℕ → ℕ) → ℕ → ℕ → ℕ → ℕ
set_gpr gpr reg value r = if r == reg then value else gpr r

-- The bit-fields of `ptr_metadata_t` in a register's value.
unfoldable pub metadata_of : ℕ → PtrMetadata
metadata_of raw = record { size = field 0 6 raw; version = field 6 9 raw; adjust = field 15 1 raw }

unfoldable pub ccptrenc_emulation : IsaOptions → Cpu → ℕ → ℕ → Option Cpu
ccptrenc_emulation o m ptr_reg size_reg =
    let ptr = m.gpr ptr_reg in
    let md = metadata_of (m.gpr size_reg) in
    if o.enable_encoding
    then (do
      (ptr_encoded, c') ← encode_pointer m.cipher ptr md
      some (record { gpr = set_gpr m.gpr ptr_reg ptr_encoded; cipher = c' }))
    else some (record m { gpr = set_gpr m.gpr ptr_reg ptr })

unfoldable pub ccptrdec_emulation : IsaOptions → Cpu → ℕ → Option Cpu
ccptrdec_emulation o m ptr_reg =
    let ptr_encoded = m.gpr ptr_reg in
    if o.enable_decoding && is_encoded_cc_ptr ptr_encoded
    then (do
      (ptr_decoded, c') ← decode_pointer m.cipher ptr_encoded
      some (record { gpr = set_gpr m.gpr ptr_reg ptr_decoded; cipher = c' }))
    else some (record m { gpr = set_gpr m.gpr ptr_reg ptr_encoded })

-- What becomes of the metadata that `try_box` gives: without it the pointer is handed back.
unfoldable pub encode_boxed :
    PointerCipher → ℕ → ℕ → Option PtrMetadata → Option (ℕ × PointerCipher)
encode_boxed c p v none = some (p, c)
encode_boxed c p v (some md) = encode_pointer c p (record md { version = v })

-- `cc_isa_encptr` runs the instruction with encoding enabled.
unfoldable pub cc_isa_encptr_sv : PointerCipher → ℕ → ℕ → ℕ → Option (ℕ × PointerCipher)
cc_isa_encptr_sv c p s v =
    encode_boxed c p v (try_box p s (record { size = 0; version = 0; adjust = 0 }))
