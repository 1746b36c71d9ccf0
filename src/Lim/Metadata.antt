-- ===== src/Lim/Metadata.antt =====
-- The metadata of malloc/lim_ptr_encoding.h: how bounds are encoded, stored and decoded.
-- Memory is a function from addresses to bytes; `none` is a failed assertion. `lim_no_encode` and
-- `trace_only` are arguments.
use c3_simulator.Common.{
  ◌>>=◌, assert◌then◌, ℕ, zero, suc, ◌+◌, ◌-◌, ◌*◌, ◌/◌, ◌%◌, ◌^◌, Bool, ◌&&◌, ◌||◌, ltb, leb, ◌==◌,
  if◌then◌else◌, Option, some, u64, add64, sub64, ◌<<<◌, ◌>>>◌, field,
}
use c3_simulator.Lim.Pointer.{
  lim_encoding_limit_1, lim_encoding_limit_2, lim_metadata_size_32_64b, lim_metadata_size_128_256b,
  lim_metadata_size_512b, lim_min_slot_sz, get_slot_size_in_bytes, get_middle_address,
  get_metadata_address, calculate_encoded_size,
}

unfoldable pub encode_bound : ℕ → ℕ
encode_bound bound = bound >>> 3

unfoldable pub decode_bound : ℕ → ℕ
decode_bound bound = u64 (add64 bound 1 <<< 3)

-- The result of `lim_compute_bounded_data_size` and its out-parameters.
pub record BoundedData : Type 0 where
  pub data_size : ℕ
  pub enc_lb : ℕ
  pub enc_ub : ℕ

-- The metadata size that the slot size asks for.
unfoldable pub expected_meta_size : ℕ → ℕ
expected_meta_size slot_size =
    if leb slot_size lim_encoding_limit_1
    then lim_metadata_size_32_64b else if leb slot_size lim_encoding_limit_2
    then lim_metadata_size_128_256b else lim_metadata_size_512b

-- `lim_compute_bounded_data_size` once the slot, its middle and the place of its metadata are known.
unfoldable pub bounded_data_size_around : ℕ → ℕ → ℕ → ℕ → ℕ → ℕ → Option BoundedData
bounded_data_size_around ptr data_size meta_size slot_size ptr_midpoint ptr_metadata =
    let lower_bound_in_bytes = sub64 (sub64 ptr_midpoint 1) ptr in
    let upper_la = sub64 (add64 (add64 ptr data_size) meta_size) 1 in
    let upper_bound_in_bytes =
      if leb ptr_midpoint upper_la then sub64 upper_la ptr_midpoint else 0 in
    let enc_lb = encode_bound lower_bound_in_bytes in
    let enc_ub = encode_bound upper_bound_in_bytes in
    let dec_lb = decode_bound enc_lb in
    let dec_ub = decode_bound enc_ub in
    assert ltb ptr ptr_metadata
    then assert leb ptr_metadata ptr_midpoint
    then assert leb ptr_midpoint upper_la || leb data_size (lim_min_slot_sz / 2)
    then assert leb dec_lb (slot_size / 2)
    then assert leb dec_ub (slot_size / 2)
    then assert meta_size == expected_meta_size slot_size
    then some (record {
      data_size = sub64 (add64 dec_lb dec_ub) meta_size;
      enc_lb = enc_lb;
      enc_ub = enc_ub;
    })

unfoldable pub lim_compute_bounded_data_size : ℕ → ℕ → ℕ → Option BoundedData
lim_compute_bounded_data_size ptr data_size meta_size = do
  encoded_size ← calculate_encoded_size ptr (add64 data_size meta_size)
  bounded_data_size_around ptr data_size meta_size (get_slot_size_in_bytes encoded_size)
      (get_middle_address ptr encoded_size) (get_metadata_address ptr encoded_size)

-- The values of the metadata structures, as the bytes of a little-endian machine hold them.
unfoldable pub meta_1b : ℕ → ℕ → ℕ → ℕ
meta_1b lower_bound upper_bound t =
    t % 2 ^ 4 + lower_bound % 2 ^ 2 * 2 ^ 4 + upper_bound % 2 ^ 2 * 2 ^ 6

unfoldable pub meta_2b : ℕ → ℕ → ℕ → ℕ
meta_2b lower_bound upper_bound t =
    lower_bound % 2 ^ 4 + t % 2 ^ 4 * 2 ^ 4 + t % 2 ^ 4 * 2 ^ 8 + upper_bound % 2 ^ 4 * 2 ^ 12

unfoldable pub meta_16b : ℕ → ℕ → ℕ → ℕ
meta_16b lower_bound upper_bound t =
    lower_bound % 2 ^ 60 + t % 2 ^ 4 * 2 ^ 60 + t % 2 ^ 4 * 2 ^ 64 + upper_bound % 2 ^ 60 * 2 ^ 68

-- `memcpy` of the `n` bytes of `value` to `addr`, and of `n` bytes at `addr` into a value.
unfoldable pub store : (ℕ → ℕ) → ℕ → ℕ → ℕ → ℕ → ℕ
store memory addr n value x =
    if leb addr x && ltb x (addr + n) then value / 2 ^ (8 * (x - addr)) % 2 ^ 8 else memory x

unfoldable pub load : (ℕ → ℕ) → ℕ → ℕ → ℕ
load memory addr zero = 0
load memory addr (suc n) = memory addr + 2 ^ 8 * load memory (addr + 1) n

unfoldable pub meta_value : ℕ → BoundedData → ℕ → ℕ
meta_value meta_size b t =
    if meta_size == lim_metadata_size_32_64b
    then meta_1b b.enc_lb b.enc_ub t else if meta_size == lim_metadata_size_128_256b
    then meta_2b b.enc_lb b.enc_ub t else meta_16b b.enc_lb b.enc_ub t

unfoldable pub set_metadata : Bool → (ℕ → ℕ) → ℕ → ℕ → ℕ → ℕ → Option (ℕ × (ℕ → ℕ))
set_metadata lim_no_encode memory ptr data_size meta_size t = do
  encoded_size ← calculate_encoded_size ptr (add64 data_size meta_size)
  b ← lim_compute_bounded_data_size ptr data_size meta_size
  some (
    b.data_size,
    if lim_no_encode
        then memory else store memory (get_metadata_address ptr encoded_size) meta_size
            (meta_value meta_size b t),
  )

pub record DecodedMetadata : Type 0 where
  pub tag_left : ℕ
  pub tag_right : ℕ
  pub lower_la : ℕ
  pub upper_la : ℕ

unfoldable pub lim_decode_metadata : Bool → ℕ → ℕ → ℕ → Option DecodedMetadata
lim_decode_metadata trace_only metadata meta_size la_middle =
    let bounds : ℕ → ℕ → ℕ → ℕ → DecodedMetadata = λ left right lower upper. record {
      tag_left = left;
      tag_right = right;
      lower_la = sub64 la_middle (decode_bound lower);
      upper_la = sub64 (add64 la_middle (decode_bound upper)) 1;
    } in
    if trace_only
    then some (record { tag_left = 0; tag_right = 0; lower_la = 0; upper_la = 2 ^ 64 - 1 }) else
        if meta_size == 1
    then some
        (bounds (field 0 4 metadata) (field 0 4 metadata) (field 4 2 metadata) (field 6 2 metadata))
        else if meta_size == 2
    then some
        (bounds (field 4 4 metadata) (field 8 4 metadata) (field 0 4 metadata)
          (field 12 4 metadata))
        else assert meta_size == 16
    then some (
        bounds (field 60 4 metadata) (field 64 4 metadata) (field 0 60 metadata)
          (field 68 60 metadata))

unfoldable pub lim_compute_disp_size : ℕ → ℕ → DecodedMetadata → Option ℕ
lim_compute_disp_size meta_la meta_size dec_meta =
    let last_meta_la = sub64 (add64 meta_la meta_size) 1 in
    let space_after_meta = sub64 dec_meta.upper_la last_meta_la in
    assert leb last_meta_la dec_meta.upper_la
    then some (if ltb meta_size space_after_meta then meta_size else space_after_meta)

unfoldable pub lim_compute_disp_base : ℕ → ℕ → DecodedMetadata → Option ℕ
lim_compute_disp_base meta_la meta_size dec_meta = do
  disp_size ← lim_compute_disp_size meta_la meta_size dec_meta
  some (add64 (sub64 dec_meta.upper_la disp_size) 1)
