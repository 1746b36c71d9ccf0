-- ===== src/Ca/Tests.antt =====
-- The theorems on CAs at a concrete key and address: crypto/cc_encoding.h and malloc/try_box.h.
use c3_simulator.Common.{
  true, ◌==◌, ◌%◌, ◌/◌, if◌then◌else◌, Option, get_or, ℕ, ◌≡◌, ◌⊎◌, refl, arith, List, [], ◌∷◌,
  none, some, add64,
}
use c3_simulator.Common.Bits.{SameSlot}
use c3_simulator.Bipbip.Cipher.{PointerCipher, keyed}
use c3_simulator.Bipbip.Caching.{IsCoherent, keyed-IsCoherent}
use c3_simulator.Ca.Format.{PtrMetadata}
use c3_simulator.Ca.Boxing.{try_box}
use c3_simulator.Ca.Encoding.{encode_pointer, decode_pointer}
use c3_simulator.Ca.Slots.{Boxes, last_byte, try_box-Boxes}
use c3_simulator.Ca.Decoding.{decode_pointer-encode_pointer}
use c3_simulator.Ca.Instructions.{decode, disassemble, described_if, disassemble_lem}
use c3_simulator.Ca.Emulation.{ccptrdec_emulation-ccptrenc_emulation}
use c3_simulator.Ca.Isa.{
  IsaOptions, Cpu, metadata_of, ccptrenc_emulation, ccptrdec_emulation, cc_isa_encptr_sv,
}
use c3_simulator.Ca.Allocation.{user-canonical, cc_isa_encptr_sv-decode}

abbrev test_key : List ℕ
test_key =
    1 ∷ 2 ∷ 3 ∷ 4 ∷ 5 ∷ 6 ∷ 7 ∷ 8 ∷ 9 ∷ 10 ∷ 11 ∷ 12 ∷ 13 ∷ 14 ∷ 15 ∷ 16 ∷ 17 ∷ 18 ∷ 19 ∷ 20 ∷ 21
    ∷ 22 ∷ 23 ∷ 24 ∷ 25 ∷ 26 ∷ 27 ∷ 28 ∷ 29 ∷ 30 ∷ 31 ∷ 32 ∷ []

abbrev test_cipher : PointerCipher
test_cipher = keyed test_key

test_cipher-IsCoherent : IsCoherent test_cipher
test_cipher-IsCoherent = keyed-IsCoherent test_key

abbrev no_metadata : PtrMetadata
no_metadata = record { size = 0; version = 0; adjust = 0 }

cc_isa_encptr_sv-decode_example :
    (ca : ℕ) × (c' : PointerCipher) × (c2' : PointerCipher) × (cc_isa_encptr_sv test_cipher
        0x7fff00001000 48 3
      ≡ some (ca, c'))
    × (decode_pointer test_cipher (add64 ca 20) ≡ some (0x7fff00001014, c2'))
cc_isa_encptr_sv-decode_example =
    cc_isa_encptr_sv-decode test_cipher test_cipher 0x7fff00001000 48 3 20 test_cipher-IsCoherent
      test_cipher-IsCoherent refl (omega arith) (omega arith) refl

decode_pointer-encode_pointer_example :
    (ca : ℕ) × (c' : PointerCipher) × (c2' : PointerCipher) × (encode_pointer test_cipher
        0x7fff00001000
        (record { size = 7; version = 3; adjust = 0 })
      ≡ some (ca, c'))
    × (decode_pointer test_cipher (add64 ca 20) ≡ some (0x7fff00001014, c2'))
decode_pointer-encode_pointer_example =
    decode_pointer-encode_pointer test_cipher test_cipher 0x7fff00001000 20
      (record { size = 7; version = 3; adjust = 0 }) test_cipher-IsCoherent test_cipher-IsCoherent
      refl (omega arith) (omega arith) (omega arith) (omega arith) refl
      (user-canonical _ (omega arith))

try_box-Boxes_example :
    (((md : PtrMetadata) × (try_box 0x1000 48 no_metadata ≡ some md)
        × Boxes 0x1000 48 no_metadata md)
      × SameSlot 32 0x1000 (last_byte 0x1000 48))
    ⊎ ((try_box 0x1000 48 no_metadata ≡ none) × ¬ (SameSlot 32 0x1000 (last_byte 0x1000 48)))
try_box-Boxes_example = try_box-Boxes 0x1000 48 no_metadata (omega arith)

-- Operands from the fields of the last byte.
abbrev test_registers : List ℕ → Option (ℕ × ℕ)
test_registers bytes = some (get_or bytes 3 0 % 8, get_or bytes 3 0 / 8 % 8)

abbrev test_instruction : List ℕ
test_instruction = 0xF0 ∷ 0x0F ∷ 0x01 ∷ 0xC1 ∷ []

disassemble_lem_example :
    disassemble test_registers test_instruction
    ≡ described_if (decode test_registers test_instruction)
disassemble_lem_example = disassemble_lem test_registers test_instruction

abbrev test_options : IsaOptions
test_options = record { enable_encoding = true; enable_decoding = true }

abbrev test_cpu : Cpu
test_cpu = record { gpr = λ r. if r == 0 then 0x7fff00001000 else 7; cipher = test_cipher }

ccptrdec_emulation-ccptrenc_emulation_example :
    (m1 : Cpu) × (m2 : Cpu) × (ccptrenc_emulation test_options test_cpu 0 1 ≡ some m1)
    × (ccptrdec_emulation test_options m1 0 ≡ some m2)
    × ((r : ℕ) → m2.gpr r ≡ test_cpu.gpr r)
unfolding metadata_of
ccptrdec_emulation-ccptrenc_emulation_example =
    ccptrdec_emulation-ccptrenc_emulation test_options test_cpu 0 1 refl refl test_cipher-IsCoherent
      (omega arith) (user-canonical _ (omega arith)) (omega arith) (omega arith)
