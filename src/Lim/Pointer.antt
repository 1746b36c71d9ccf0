-- ===== src/Lim/Pointer.antt =====
-- The pointers of malloc/lim_ptr_encoding.h, their slots and where a slot's metadata stands.
-- `none` is a call of `abort` or `exit`, or a failed assertion.
use c3_simulator.Common.{
  ℕ, ◌-◌, ◌^◌, bit_or, bit_xor, Bool, ◌&&◌, ◌||◌, not, ltb, leb, ◌==◌, if◌then◌else◌, Option, none,
  some, u8, u64, add64, sub64, ◌<<<◌, ◌>>>◌, field, set_field, low_mask,
}
use c3_simulator.Ca.Boxing.{clz64}

abbrev pub heap_min_chunk_sz : ℕ
heap_min_chunk_sz = 24

abbrev pub lim_encoding_limit_1 : ℕ
lim_encoding_limit_1 = 64

abbrev pub lim_encoding_limit_2 : ℕ
lim_encoding_limit_2 = 256

abbrev pub lim_metadata_size_32_64b : ℕ
lim_metadata_size_32_64b = 1

abbrev pub lim_metadata_size_128_256b : ℕ
lim_metadata_size_128_256b = 2

abbrev pub lim_metadata_size_512b : ℕ
lim_metadata_size_512b = 16

abbrev pub lim_min_encoded_sz : ℕ
lim_min_encoded_sz = 5

abbrev pub lim_max_encoded_sz : ℕ
lim_max_encoded_sz = 56

abbrev pub lim_min_slot_sz : ℕ
lim_min_slot_sz = 2 ^ 5

-- The fields of `encoded_pointer_t`.
abbrev pub base_addr : ℕ → ℕ
base_addr ep = field 0 54 ep

abbrev pub tag : ℕ → ℕ
tag ep = field 54 4 ep

abbrev pub enc_size : ℕ → ℕ
enc_size ep = field 58 6 ep

unfoldable pub check_encoded_size : ℕ → Bool
check_encoded_size encoded_size =
    not (ltb encoded_size lim_min_encoded_sz || ltb lim_max_encoded_sz encoded_size)

unfoldable pub is_encoded_lim_ptr : ℕ → Bool
is_encoded_lim_ptr la = not (enc_size la == 0) && not (enc_size la == low_mask 6)

unfoldable pub lim_decode_pointer : ℕ → ℕ
lim_decode_pointer encoded_pointer = base_addr encoded_pointer

unfoldable pub lim_encode_pointer : ℕ → ℕ → ℕ → Option ℕ
unfolding check_encoded_size
lim_encode_pointer addr encoded_size t =
    if check_encoded_size encoded_size
    then some (set_field 54 4 (set_field 58 6 addr encoded_size) t)
    else none

unfoldable pub get_encoded_tag : ℕ → ℕ
get_encoded_tag encoded_pointer = u8 (tag encoded_pointer)

unfoldable pub get_encoded_size : ℕ → ℕ
get_encoded_size encoded_pointer = u8 (enc_size encoded_pointer)

-- From here on a function takes a size that `check_encoded_size` has passed.
unfoldable pub get_slot_size_in_bytes : ℕ → ℕ
get_slot_size_in_bytes encoded_size = 2 ^ encoded_size

unfoldable pub get_middle_address : ℕ → ℕ → ℕ
get_middle_address addr encoded_size =
    bit_or ((addr >>> encoded_size) <<< encoded_size) (2 ^ (encoded_size - 1))

unfoldable pub get_metadata_offset_from_middle : ℕ → ℕ
get_metadata_offset_from_middle encoded_size =
    let slot_size = get_slot_size_in_bytes encoded_size in
    if leb slot_size lim_encoding_limit_1
    then 0
    else if leb slot_size lim_encoding_limit_2
    then 1
    else 8

unfoldable pub get_metadata_address : ℕ → ℕ → ℕ
get_metadata_address addr encoded_size =
    sub64 (get_middle_address addr encoded_size) (get_metadata_offset_from_middle encoded_size)

unfoldable pub get_metadata_address_from_enc_ptr : ℕ → Option ℕ
unfolding check_encoded_size
get_metadata_address_from_enc_ptr enc_ptr =
    let p_dec = lim_decode_pointer enc_ptr in
    let enc_sz = get_encoded_size enc_ptr in
    if check_encoded_size enc_sz then some (get_metadata_address p_dec enc_sz) else none

unfoldable pub get_slot_start : ℕ → ℕ → ℕ
get_slot_start addr encoded_size = (addr >>> encoded_size) <<< encoded_size

unfoldable pub get_slot_end : ℕ → ℕ → ℕ
get_slot_end addr encoded_size = sub64 (u64 (add64 (addr >>> encoded_size) 1 <<< encoded_size)) 1

unfoldable pub get_page_addr : ℕ → ℕ
get_page_addr addr = addr >>> 12

unfoldable pub get_next_page_start_addr : ℕ → ℕ
unfolding get_page_addr
get_next_page_start_addr addr = u64 (get_page_addr (add64 addr (2 ^ 12)) <<< 12)

unfoldable pub get_next_cacheline_start_addr : ℕ → ℕ
unfolding get_page_addr
get_next_cacheline_start_addr addr = u64 (get_page_addr (add64 addr (2 ^ 6)) <<< 6)

-- `none` is an encoded size that `check_encoded_size` refuses.
unfoldable pub calculate_encoded_size : ℕ → ℕ → Option ℕ
unfolding check_encoded_size
calculate_encoded_size ptr size =
    let size1 = if ltb size heap_min_chunk_sz then heap_min_chunk_sz else size in
    let ptr_end = add64 ptr (sub64 size1 1) in
    let diff = bit_xor ptr ptr_end in
    let encoded_size = u8 (64 - clz64 diff) in
    let encoded_size1 =
      if leb encoded_size lim_min_encoded_sz then lim_min_encoded_sz else encoded_size in
    if check_encoded_size encoded_size1 then some encoded_size1 else none

unfoldable pub get_min_metadata_size : ℕ → ℕ
get_min_metadata_size data_size =
    if leb (add64 data_size lim_metadata_size_32_64b) lim_encoding_limit_1
    then lim_metadata_size_32_64b
    else if leb (add64 data_size lim_metadata_size_128_256b) lim_encoding_limit_2
    then lim_metadata_size_128_256b
    else lim_metadata_size_512b

unfoldable pub get_metadata_size : ℕ → ℕ
get_metadata_size encoded_size =
    let slot_size = get_slot_size_in_bytes encoded_size in
    if leb slot_size lim_encoding_limit_1
    then lim_metadata_size_32_64b
    else if leb slot_size lim_encoding_limit_2
    then lim_metadata_size_128_256b
    else lim_metadata_size_512b

unfoldable pub get_next_larger_metadata_size : ℕ → Option ℕ
get_next_larger_metadata_size meta_size =
    if meta_size == 0
    then some lim_metadata_size_32_64b
    else if meta_size == lim_metadata_size_32_64b
    then some lim_metadata_size_128_256b
    else if meta_size == lim_metadata_size_128_256b
    then some lim_metadata_size_512b
    else none
