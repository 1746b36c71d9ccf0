-- ===== src/Ca/Format.antt =====
-- The layout of a CA, c3lib/c3/generic/ca.h. A pointer is a `uint64_t`, and a C bit-field of `ca_t`
-- is a pair of functions: its value, and the pointer with a value stored into it.
use c3_simulator.Common.{
  ℕ, ◌+◌, ◌-◌, ◌%◌, bit_and, bit_or, Bool, true, false, ◌&&◌, ◌||◌, not, ltb, ◌==◌, if◌then◌else◌,
  u64, not64, sub64, ◌<<<◌, ◌>>>◌, field, set_field,
}

abbrev pub plaintext_size : ℕ
plaintext_size = 32

abbrev pub c3_fmask : ℕ
c3_fmask = 0xFFFFFFFFFFFFFFFF

abbrev pub cc_stack_id_val : ℕ
cc_stack_id_val = 0x3e

-- `ptr_metadata_t`, whose fields are 6, 9 and 1 bits wide.
pub record PtrMetadata : Type 0 where
  pub size : ℕ
  pub version : ℕ
  pub adjust : ℕ

-- The fields of `ca_t`.
abbrev pub plaintext : ℕ → ℕ
plaintext ca = field 0 32 ca

abbrev pub ciphertext_low : ℕ → ℕ
ciphertext_low ca = field 32 15 ca

abbrev pub s_prime_bit : ℕ → ℕ
s_prime_bit ca = field 47 1 ca

abbrev pub ciphertext_high : ℕ → ℕ
ciphertext_high ca = field 48 9 ca

abbrev pub enc_size : ℕ → ℕ
enc_size ca = field 57 6 ca

abbrev pub set_plaintext : ℕ → ℕ → ℕ
set_plaintext ca v = set_field 0 32 ca v

abbrev pub set_ciphertext_low : ℕ → ℕ → ℕ
set_ciphertext_low ca v = set_field 32 15 ca v

abbrev pub set_ciphertext_high : ℕ → ℕ → ℕ
set_ciphertext_high ca v = set_field 48 9 ca v

abbrev pub set_enc_size : ℕ → ℕ → ℕ
set_enc_size ca v = set_field 57 6 ca v

abbrev pub set_s_extended : ℕ → ℕ → ℕ
set_s_extended ca v = set_field 48 15 ca v

abbrev pub set_version : ℕ → ℕ → ℕ
set_version ca v = set_field 48 9 ca v

unfoldable pub get_low_canonical_bits : ℕ → ℕ
get_low_canonical_bits pointer = bit_and pointer (c3_fmask >>> (64 - 47 - 1))

unfoldable pub ca_get_size : ℕ → ℕ
ca_get_size pointer = enc_size pointer

unfoldable pub ca_get_adjust : ℕ → ℕ
ca_get_adjust pointer = if ca_get_size pointer == 31 then 1 else 0

unfoldable pub get_ciphertext : ℕ → ℕ
get_ciphertext pointer = bit_or (ciphertext_high pointer <<< 15) (ciphertext_low pointer)

-- C leaves the shift by `size - 1` undefined at size 0; the processor takes its count modulo 64.
unfoldable pub get_tweak_mask : ℕ → ℕ
get_tweak_mask size = u64 (c3_fmask <<< ((size + 63) % 64))

unfoldable pub is_canonical : ℕ → Bool
is_canonical pointer = let high = pointer >>> 47 in high == 0 || high == (c3_fmask >>> 47)

unfoldable pub decode_size : ℕ → ℕ
decode_size size_encoded = u64 (1 <<< ((size_encoded + 63) % 64))

unfoldable pub get_size_in_bytes : ℕ → ℕ
unfolding ca_get_size decode_size
get_size_in_bytes pointer = decode_size (ca_get_size pointer)

unfoldable pub ca_get_tweak_bits : ℕ → ℕ
ca_get_tweak_bits ptr = bit_and ptr (get_tweak_mask (enc_size ptr))

-- The largest offset, at most `i`, that stays in the slot of `ptr`.
unfoldable pub ca_get_inbound_offset : ℕ → ℕ → ℕ
unfolding get_tweak_mask
ca_get_inbound_offset ptr i =
    let mask = not64 (get_tweak_mask (enc_size ptr)) in
    let max = sub64 mask (bit_and mask ptr) in if ltb i max then i else max

unfoldable pub mask_n_lower_bits : ℕ → ℕ → ℕ
mask_n_lower_bits val n = u64 (val >>> n <<< n)

unfoldable pub is_encoded_cc_ptr : ℕ → Bool
is_encoded_cc_ptr ptr = if enc_size ptr == 0 || enc_size ptr == 63 then false else true

unfoldable pub is_encoded_cc_stack_ptr : ℕ → Bool
unfolding is_encoded_cc_ptr
is_encoded_cc_stack_ptr ptr = is_encoded_cc_ptr ptr && enc_size ptr == cc_stack_id_val

unfoldable pub is_encoded_cc_heap_ptr : ℕ → Bool
unfolding is_encoded_cc_ptr
is_encoded_cc_heap_ptr ptr = is_encoded_cc_ptr ptr && not (enc_size ptr == cc_stack_id_val)
