-- ===== src/Lim/Tests.antt =====
-- The theorems on LIM pointers and metadata at concrete allocations: malloc/lim_ptr_encoding.h.
use c3_simulator.Common.{ℕ, ◌≡◌, refl, ap, ◌∙◌, arith, true, false, some}
use c3_simulator.Ca.Boxing.{bit_length, clz64}
use c3_simulator.Lim.Pointer.{
  check_encoded_size, get_slot_size_in_bytes, get_middle_address, get_metadata_address,
  calculate_encoded_size, get_metadata_size, is_encoded_lim_ptr, lim_decode_pointer,
  lim_encode_pointer, get_encoded_tag, get_encoded_size,
}
use c3_simulator.Lim.Metadata.{load, set_metadata, DecodedMetadata, lim_decode_metadata}
use c3_simulator.Lim.Bounds.{IsLeast, calculate_encoded_size_lem}
use c3_simulator.Lim.Roundtrip.{Describes, lim_decode_metadata-set_metadata}
use c3_simulator.Lim.Pointers.{lim_encode_pointer_lem}

abbrev no_bytes : ℕ → ℕ
no_bytes address = 0

slot_of_100 : calculate_encoded_size 0x10000 102 ≡ some 7
unfolding calculate_encoded_size clz64 bit_length check_encoded_size
slot_of_100 = refl

size_in_slot : 2 ≡ get_metadata_size 7
unfolding get_metadata_size get_slot_size_in_bytes
size_in_slot = refl

metadata_size_of_100 :
    (e : ℕ) → calculate_encoded_size 0x10000 102 ≡ some e → 2 ≡ get_metadata_size e
metadata_size_of_100 e found =
    let same : 7 ≡ e = ground (arith, slot_of_100) in size_in_slot ∙ ap get_metadata_size same

lim_decode_metadata-set_metadata_example :
    (e : ℕ) × (size : ℕ) × (memory' : ℕ → ℕ) × (dec : DecodedMetadata) × (calculate_encoded_size
        0x10000 102
      ≡ some e)
    × (set_metadata false no_bytes 0x10000 100 2 9 ≡ some (size, memory'))
    × (lim_decode_metadata false
          (load memory' (get_metadata_address 0x10000 e) 2)
          2
          (get_middle_address 0x10000 e)
        ≡ some dec)
    × Describes 0x10000 100 2 9 (get_middle_address 0x10000 e) size dec
lim_decode_metadata-set_metadata_example =
    lim_decode_metadata-set_metadata no_bytes 0x10000 100 2 9 refl (omega arith)
      metadata_size_of_100

calculate_encoded_size_lem_example :
    (e : ℕ) × (calculate_encoded_size 0x1000 100 ≡ some e) × IsLeast 0x1000 0x1063 e
calculate_encoded_size_lem_example = calculate_encoded_size_lem 0x1000 100 (omega arith)

lim_encode_pointer_lem_example :
    (p : ℕ) × (lim_encode_pointer 0x1234 7 0x1b ≡ some p)
    × (is_encoded_lim_ptr p ≡ true)
    × (lim_decode_pointer p ≡ 0x1234)
    × (get_encoded_size p ≡ 7)
    × (get_encoded_tag p ≡ 0xb)
lim_encode_pointer_lem_example =
    lim_encode_pointer_lem 0x1234 7 0x1b (omega arith) (omega arith) (omega arith)
