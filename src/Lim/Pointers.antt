-- ===== src/Lim/Pointers.antt =====
-- The fields of an encoded pointer of malloc/lim_ptr_encoding.h.
use c3_simulator.Common.{
  ℕ, ◌%◌, ◌^◌, ◌≤◌, ◌<◌, ◌≡◌, ap, arith, true, if◌then◌else◌, none, some, set_field,
}
use c3_simulator.Lim.Pointer.{
  check_encoded_size, is_encoded_lim_ptr, lim_decode_pointer, lim_encode_pointer, get_encoded_tag,
  get_encoded_size,
}

valid_lem : (e : ℕ) → 5 ≤ e → e ≤ 56 → check_encoded_size e ≡ true
unfolding check_encoded_size
valid_lem e lo hi = ground arith

-- An address below 2^54 is encoded with every size that is valid; the result is an encoded pointer,
-- and the address, the size and the tag, cut to 4 bits, are read back from it.
pub lim_encode_pointer_lem :
    (addr e t : ℕ)
    → addr < 2 ^ 54
    → 5 ≤ e
    → e ≤ 56
    → (p : ℕ) × (lim_encode_pointer addr e t ≡ some p)
      × (is_encoded_lim_ptr p ≡ true)
      × (lim_decode_pointer p ≡ addr)
      × (get_encoded_size p ≡ e)
      × (get_encoded_tag p ≡ t % 16)
unfolding lim_encode_pointer check_encoded_size is_encoded_lim_ptr lim_decode_pointer
    get_encoded_size get_encoded_tag
lim_encode_pointer_lem addr e t h lo hi = (
  set_field 54 4 (set_field 58 6 addr e) t,
  ap (λ b. if b then some (set_field 54 4 (set_field 58 6 addr e) t) else none) (valid_lem e lo hi),
  ground arith,
  omega arith,
  omega arith,
  omega arith,
)
